-- ===== src/Reconciliation/Categorizer.antt =====
-- categorizer.py: the module-global registry. A categorizer is any value with the two answers that
-- `register_categorizer` asks of it; `none` in the slot stands for `None`.
pub mod Answers
use tulip_accounting.Prelude.{
  ◌≡◌, ◌≢◌, inl, inr, refl, Bool, true, false, not, ◌&&◌, Option, none, some, List, [], ◌∷◌,
  if◌then◌else◌, Bool-cases,
}
use tulip_accounting.Prelude.Results.{Error, Result, ok, err, raise_if, ◌>>◌}

-- What `get_categorizer` returns: the registered one, or a `NullCategorizer`.
pub data Active {ℓ} (C : Type ℓ) : Type ℓ where
  null_categorizer : Active C
  registered : C → Active C

-- `isinstance(c, Categorizer)` and `inspect.iscoroutinefunction(c.categorize)`
module _ {ℓ} {C : Type ℓ} (is_categorizer is_async : C → Bool) where
  -- `register_categorizer`: the new slot, and whether a warning was given.
  unfoldable pub register_categorizer : C → Option C → Result (Option C × Bool)
  register_categorizer c slot = do
    raise_if (not (is_categorizer c)) Error.not_a_categorizer
    raise_if (not (is_async c)) Error.not_async
    ok (some c, elim slot [ none ↦ false | some _ ↦ true ])

  -- The slot after a call; one that raised leaves it.
  abbrev pub slot_after : Result (Option C × Bool) → Option C → Option C
  slot_after (ok r) slot = r.0
  slot_after (err e) slot = slot

  -- The slot after calls in turn, each error caught.
  unfoldable pub register_all : List C → Option C → Option C
  unfolding register_categorizer
  register_all [] slot = slot
  register_all (c ∷ cs) slot = register_all cs (slot_after (register_categorizer c slot) slot)

-- `get_categorizer`
unfoldable pub get_categorizer {ℓ} : {C : Type ℓ} → Option C → Active C
get_categorizer none = null_categorizer
get_categorizer (some c) = registered c

module _ {ℓ} {C : Type ℓ} (is_categorizer is_async : C → Bool) where
  -- The last of the values that may be registered, if there is one.
  abbrev pub last_accepted : List C → Option C → Option C
  last_accepted [] found = found
  last_accepted (c ∷ cs) found =
      last_accepted cs (if is_categorizer c && is_async c then some c else found)

  -- After any sequence of registrations the active categorizer is the last one that qualifies, and
  -- what the slot held before if none does; a refused registration changes nothing.
  pub register_all_lem :
      (cs : List C) (slot : Option C)
      → get_categorizer (register_all is_categorizer is_async cs slot)
        ≡ get_categorizer (last_accepted cs slot)
  unfolding register_all
  register_all_lem [] slot = refl
  register_all_lem (c ∷ cs) slot = elim (Bool-cases (is_categorizer c)) [
    | inr wrong ↦ rw wrong (register_all_lem cs slot)
    | inl right ↦ elim (Bool-cases (is_async c)) [
      | inr sync ↦ rw (right, sync) (register_all_lem cs slot)
      | inl async ↦ rw (right, async) (register_all_lem cs (some c))
    ]
  ]

  -- A registration that succeeds puts its categorizer in the slot, and warns exactly when it
  -- replaces one.
  pub register_categorizer_lem :
      (c : C) (slot : Option C)
      → is_categorizer c ≡ true
      → is_async c ≡ true
      → (w : Bool) × (register_categorizer is_categorizer is_async c slot ≡ ok (some c, w))
        × (get_categorizer (some c) ≡ registered c)
        × ((w ≡ false → slot ≡ none) × (w ≡ true → slot ≢ none))
  unfolding register_categorizer get_categorizer
  register_categorizer_lem c none k a = (false, rw (k, a) refl, refl, (λ e. refl, λ e. absurd (cc)))
  register_categorizer_lem c (some d) k a =
      (true, rw (k, a) refl, refl, (λ e. absurd (cc), λ e h. cc))
