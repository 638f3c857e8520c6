-- ===== src/Base/Dict.antt =====
-- Python's `dict` with text keys, as the list of its items in insertion order: an assignment to a
-- key that is there keeps its place, and a new key goes to the end.
use mathlib.Core.Path.{◌≡◌, refl, ◌∙◌}
use mathlib.Core.Logic.{inl, inr}
use mathlib.Core.Bool.{Bool, true, false}
use mathlib.Core.List.{List, [], ◌∷◌}
use mathlib.Core.Option.{Option, none, some}
use Prim.Native.String.{String}
use native.Mathlib.Omega.{arith}
use text.Mathlib.Text.{◌==◌ as str_eq}
use text.Mathlib.TextEquality.{eq_iff}
use socio_workspace.Base.Tests.{if◌then◌else◌, Bool-cases}

abbrev pub Dict {ℓ} : Type ℓ → Type ℓ
Dict V = List (String × V)

module _ {ℓ} {V : Type ℓ} where
  -- d.get(k)
  unfoldable pub get : Dict V → String → Option V
  get [] k = none
  get ((j, v) ∷ d) k = if str_eq j k then some v else get d k

  -- k in d
  unfoldable pub has : Dict V → String → Bool
  has [] k = false
  has ((j, v) ∷ d) k = if str_eq j k then true else has d k

  -- d[k] = v
  unfoldable pub put : Dict V → String → V → Dict V
  put [] k v = (k, v) ∷ []
  put ((j, w) ∷ d) k v = if str_eq j k then (j, v) ∷ d else (j, w) ∷ put d k v

  pub get-put :
      (d : Dict V) (k j : String) (v : V)
      → get (put d k v) j ≡ (if str_eq k j then some v else get d j)
  unfolding get put
  get-put [] k j v = refl
  get-put ((i, w) ∷ d) k j v = ground (arith, eq_iff k j, eq_iff i k, eq_iff i j, get-put d k j v)

  -- No key stands twice.
  abbrev pub IsUnique : Dict V → Type 0
  IsUnique [] = Unit
  IsUnique ((k, v) ∷ d) = (has d k ≡ false) × IsUnique d

  pub has-put :
      (d : Dict V) (k j : String) (v : V)
      → has (put d k v) j ≡ (if str_eq k j then true else has d j)
  unfolding has put
  has-put [] k j v = refl
  has-put ((i, w) ∷ d) k j v = ground (arith, eq_iff k j, eq_iff i k, eq_iff i j, has-put d k j v)

  pub IsUnique-put : (d : Dict V) (k : String) (v : V) → IsUnique d → IsUnique (put d k v)
  unfolding has put
  IsUnique-put [] k v u = (refl, tt)
  IsUnique-put ((j, w) ∷ d) k v u = elim (Bool-cases (str_eq j k)) [
    | inl hit ↦ rw hit u
    | inr miss ↦ rw miss (
      has-put d k j v ∙ ground (arith, eq_iff j k, eq_iff k j, miss, u.0),
      IsUnique-put d k v u.1,
    )
  ]

  pub get-absent : (d : Dict V) (k : String) → has d k ≡ false → get d k ≡ none
  unfolding get has
  get-absent [] k h = refl
  get-absent ((j, v) ∷ d) k h = ground (arith, get-absent d k)
