-- ===== src/Dict.antt =====
-- Python's `dict` as an association list in insertion order: an assignment to a key that is there
-- keeps its place. Keys are compared through an instance of `Eq`.
pub mod Laws
pub mod Distinct
use wbauth.Prelude.{
  ℕ, Bool, true, false, ◌&&◌, ◌≡◌, ◌↔◌, Option, none, some, List, [], ◌∷◌, ◌==◌, ==_iff,
  if◌then◌else◌, is_some, arith, map,
}
use wbauth.Text.{Text, text_eq}
use wbauth.Text.Laws.{text_eq_iff}

pub record Eq (A : Type 0) : Type 0 where
  pub beq : A → A → Bool
  pub beq_iff : (a b : A) → (beq a b ≡ true) ↔ (a ≡ b)

infix 50 ◌=?◌
abbrev pub ◌=?◌ : {A : Type 0} ⦃e : Eq A⦄ → A → A → Bool
◌=?◌ ⦃e⦄ = e.beq

instance abbrev pub nat_eq : Eq ℕ
nat_eq = record { beq = ◌==◌; beq_iff = ==_iff }

instance abbrev pub text_keys : Eq Text
text_keys = record { beq = text_eq; beq_iff = text_eq_iff }

abbrev pub pair_beq : {A B : Type 0} ⦃e : Eq A⦄ ⦃f : Eq B⦄ → A × B → A × B → Bool
pair_beq ⦃e⦄ ⦃f⦄ p q = e.beq p.0 q.0 && f.beq p.1 q.1

pub pair_beq_iff :
    {A B : Type 0} ⦃e : Eq A⦄ ⦃f : Eq B⦄ (p q : A × B) → (pair_beq p q ≡ true) ↔ (p ≡ q)
pair_beq_iff ⦃e⦄ ⦃f⦄ p q = (
  λ h. ground (arith, e.beq_iff p.0 q.0, f.beq_iff p.1 q.1),
  λ h. ground (arith, e.beq_iff p.0 q.0, f.beq_iff p.1 q.1),
)

abbrev pub pair_eq : {A B : Type 0} (e : Eq A) (f : Eq B) → Eq (A × B)
pair_eq e f = record { beq = pair_beq ⦃e = e⦄ ⦃f = f⦄; beq_iff = pair_beq_iff ⦃e = e⦄ ⦃f = f⦄ }

abbrev pub Dict : Type 0 → Type 0 → Type 0
Dict K V = List (K × V)

module _ {K V : Type 0} ⦃e : Eq K⦄ where
  -- `d.get(k)`
  unfoldable pub get : K → Dict K V → Option V
  get k [] = none
  get k ((j, v) ∷ d) = if j =? k then some v else get k d

  -- `d[k] = v`
  unfoldable pub put : K → V → Dict K V → Dict K V
  put k v [] = (k, v) ∷ []
  put k v ((j, w) ∷ d) = if j =? k then (j, v) ∷ d else (j, w) ∷ put k v d

  -- `del d[k]`, or `d.pop(k, None)`
  unfoldable pub remove : K → Dict K V → Dict K V
  remove k [] = []
  remove k ((j, w) ∷ d) = if j =? k then remove k d else (j, w) ∷ remove k d

  -- `d.update(m)`
  unfoldable pub update : Dict K V → Dict K V → Dict K V
  unfolding put
  update d [] = d
  update d ((k, v) ∷ m) = update (put k v d) m

  abbrev pub has : K → Dict K V → Bool
  has k d = is_some (get k d)

abbrev pub keys : {K V : Type 0} → Dict K V → List K
keys d = map (λ p. p.0) d

abbrev pub values : {K V : Type 0} → Dict K V → List V
values d = map (λ p. p.1) d
