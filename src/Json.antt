-- ===== src/Json.antt =====
-- JSON values, as `json.loads` returns them. Integers only: no key or directory of the package
-- holds another number.
use wbauth.Prelude.{ℕ, Bool, List, [], ◌∷◌}
use wbauth.Text.{Text}
use wbauth.Dict.{Dict}

mutual
  pub data Json : Type 0 where
    null : Json
    bool : Bool → Json
    num : ℕ → Json
    string : Text → Json
    arr : Items → Json
    obj : Members → Json

  pub data Items : Type 0 where
    nil : Items
    cons : Json → Items → Items

  pub data Members : Type 0 where
    end : Members
    member : Text → Json → Members → Members

abbrev pub items : Items → List Json
items nil = []
items (cons v vs) = v ∷ items vs

abbrev pub members : Members → Dict Text Json
members end = []
members (member k v ms) = (k, v) ∷ members ms

abbrev pub of_list : List Json → Items
of_list [] = nil
of_list (v ∷ vs) = cons v (of_list vs)
