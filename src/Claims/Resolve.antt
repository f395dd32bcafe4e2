-- ===== src/Claims/Resolve.antt =====
-- `resolveClaims`: what it does to the rows of the three lists, and that one pass is enough.
use siedler_sterreich.Prelude.{
  ℕ, ◌+◌, false, List, [], ◌∷◌, some, ◌≡◌, ◌⊎◌, refl, arith, true, Option, none, option_split_both,
  if_split, subst, sym, ◌∙◌, not, ◌&&◌, String, or_else, if◌then◌else◌, lookup,
}
use siedler_sterreich.Claims.{
  Names, Claim, Offer, HarvestState, Hashes, Rows, fix_parcel, fix_ez, is_text, named, fix,
  fix_claims, fix_offers, fix_states, resolve_claims,
}

-- A second pass over a fixed row finds nothing more and changes nothing.
fix_idem : (g : Hashes) (c : Names) → fix g (fix g c).0 ≡ ((fix g c).0, 0)
unfolding fix named
fix_idem g c = ground arith

fix_claims_idem :
    (g : Hashes) (cs : List Claim) → fix_claims g (fix_claims g cs).0 ≡ ((fix_claims g cs).0, 0)
unfolding fix_claims
fix_claims_idem g [] = refl
fix_claims_idem g (c ∷ cs) = ground (arith, fix_idem g c.names, fix_claims_idem g cs)

fix_offers_idem :
    (g : Hashes) (cs : List Offer) → fix_offers g (fix_offers g cs).0 ≡ ((fix_offers g cs).0, 0)
unfolding fix_offers
fix_offers_idem g [] = refl
fix_offers_idem g (c ∷ cs) = ground (arith, fix_idem g c.names, fix_offers_idem g cs)

fix_states_idem :
    (g : Hashes) (cs : List HarvestState)
    → fix_states g (fix_states g cs).0 ≡ ((fix_states g cs).0, 0)
unfolding fix_states
fix_states_idem g [] = refl
fix_states_idem g (c ∷ cs) = ground (arith, fix_idem g c.names, fix_states_idem g cs)

-- One pass of `resolveClaims` finds all that the tables hold: a second pass resolves nothing and
-- leaves every claim, offer and harvest clock as it is.
pub resolve_claims_idem :
    (g : Hashes) (r : Rows) → resolve_claims g (resolve_claims g r).0 ≡ ((resolve_claims g r).0, 0)
unfolding resolve_claims
resolve_claims_idem g r = ground (
  arith,
  fix_claims_idem g r.claimed,
  fix_offers_idem g r.offers,
  fix_states_idem g r.harvest_states,
)

-- What becomes of a name with its hash: it is there and stays; or it is empty and is now the text that the table has
-- for the hash; or it stays empty, since there is no hash or the table has no text for it.
abbrev pub Filled : List (String × String) → String → String → String → Type 0
Filled table hash before after =
    ((is_text before ≡ true) × (after ≡ before))
    ⊎ ((is_text before ≡ false)
        × (is_text hash ≡ true)
        × (is_text after ≡ true)
        × (lookup hash table ≡ some after))
    ⊎ ((is_text before ≡ false)
        × (after ≡ before)
        × ((is_text hash ≡ false) ⊎ (is_text (or_else (lookup hash table) "") ≡ false)))

abbrev pub Resolved : Hashes → Names → Names → Type 0
Resolved g before after =
    (after.parcel_hash ≡ before.parcel_hash)
    × (after.ez_hash ≡ before.ez_hash)
    × Filled g.pid_by_hash before.parcel_hash before.parcel_id after.parcel_id
    × Filled g.ez_by_hash before.ez_hash before.ez after.ez

no_text :
    (o : Option String)
    → elim o [ none ↦ none | some v ↦ if is_text v then some v else none ] ≡ none
    → is_text (or_else o "") ≡ false
no_text none e = refl
no_text (some v) e = ground (arith, e)

named-eq-none :
    (h : String) (table : List (String × String))
    → named h table ≡ none
    → is_text (or_else (lookup h table) "") ≡ false
unfolding named
named-eq-none h table e = no_text (lookup h table) e

named-eq-some :
    (h : String) (table : List (String × String)) (v : String)
    → named h table ≡ some v
    → (is_text v ≡ true) × (lookup h table ≡ some v)
unfolding named
named-eq-some h table v e = ground (arith, e)

fix_parcel-Filled :
    (g : Hashes) (c : Names)
    → Filled g.pid_by_hash c.parcel_hash c.parcel_id (fix_parcel g c).0.parcel_id
unfolding fix_parcel
fix_parcel-Filled g c =
    if_split {A = Names × ℕ} (λ r. Filled g.pid_by_hash c.parcel_hash c.parcel_id r.0.parcel_id)
      (is_text c.parcel_hash && not (is_text c.parcel_id))
      (λ h.
        option_split_both {B = Names × ℕ}
          (λ r. Filled g.pid_by_hash c.parcel_hash c.parcel_id r.0.parcel_id)
          (named c.parcel_hash g.pid_by_hash)
          (λ e. ground (arith, h, named-eq-none c.parcel_hash g.pid_by_hash e))
          (λ v e. ground (arith, h, named-eq-some c.parcel_hash g.pid_by_hash v e)))
      (λ h. ground (arith, h))

fix_ez-Filled : (g : Hashes) (c : Names) → Filled g.ez_by_hash c.ez_hash c.ez (fix_ez g c).ez
unfolding fix_ez
fix_ez-Filled g c =
    if_split {A = Names} (λ r. Filled g.ez_by_hash c.ez_hash c.ez r.ez)
      (is_text c.ez_hash && not (is_text c.ez))
      (λ h.
        option_split_both {B = Names} (λ r. Filled g.ez_by_hash c.ez_hash c.ez r.ez)
          (named c.ez_hash g.ez_by_hash)
          (λ e. ground (arith, h, named-eq-none c.ez_hash g.ez_by_hash e))
          (λ v e. ground (arith, h, named-eq-some c.ez_hash g.ez_by_hash v e)))
      (λ h. ground (arith, h))

fix_parcel-others :
    (g : Hashes) (c : Names)
    → ((fix_parcel g c).0.parcel_hash ≡ c.parcel_hash)
      × ((fix_parcel g c).0.ez_hash ≡ c.ez_hash)
      × ((fix_parcel g c).0.ez ≡ c.ez)
unfolding fix_parcel
fix_parcel-others g c = ground arith

fix_ez-others :
    (g : Hashes) (c : Names)
    → ((fix_ez g c).parcel_hash ≡ c.parcel_hash)
      × ((fix_ez g c).ez_hash ≡ c.ez_hash)
      × ((fix_ez g c).parcel_id ≡ c.parcel_id)
unfolding fix_ez
fix_ez-others g c = ground arith

fix-Resolved : (g : Hashes) (c : Names) → Resolved g c (fix g c).0
unfolding fix
fix-Resolved g c =
    let d = (fix_parcel g c).0 in
    let p = fix_parcel-others g c in
    let e = fix_ez-others g d in
    (
      e.0 ∙ p.0,
      e.1 ∙ p.1,
      subst (Filled g.pid_by_hash c.parcel_hash c.parcel_id) (sym e.2) (fix_parcel-Filled g c),
      subst (λ h. Filled g.ez_by_hash h c.ez (fix_ez g d).ez) p.1
          (subst (λ z. Filled g.ez_by_hash d.ez_hash z (fix_ez g d).ez) p.2 (fix_ez-Filled g d)),
    )

-- The two lists have the same rows, but for what the relation allows.
abbrev pub Each {ℓ} : {A : Type ℓ} → (A → A → Type 0) → List A → List A → Type 0
Each R [] [] = Unit
Each R [] (d ∷ ds) = ⊥
Each R (c ∷ cs) [] = ⊥
Each R (c ∷ cs) (d ∷ ds) = R c d × Each R cs ds

-- Only the names of the row are resolved, and all else is as it was.
abbrev pub ClaimResolved : Hashes → Claim → Claim → Type 0
ClaimResolved g c d = (d ≡ record c { names = d.names }) × Resolved g c.names d.names

abbrev pub OfferResolved : Hashes → Offer → Offer → Type 0
OfferResolved g c d = (d ≡ record c { names = d.names }) × Resolved g c.names d.names

abbrev pub StateResolved : Hashes → HarvestState → HarvestState → Type 0
StateResolved g c d = (d ≡ record c { names = d.names }) × Resolved g c.names d.names

-- How many rows have no parcel.
abbrev pub lacks : Names → ℕ
lacks c = if is_text c.parcel_id then 0 else 1

pub claims_without : List Claim → ℕ
claims_without [] = 0
claims_without (c ∷ cs) = lacks c.names + claims_without cs

pub offers_without : List Offer → ℕ
offers_without [] = 0
offers_without (c ∷ cs) = lacks c.names + offers_without cs

pub states_without : List HarvestState → ℕ
states_without [] = 0
states_without (c ∷ cs) = lacks c.names + states_without cs

abbrev pub without_parcel : Rows → ℕ
without_parcel r =
    claims_without r.claimed + offers_without r.offers + states_without r.harvest_states

fix-lacks : (g : Hashes) (c : Names) → lacks (fix g c).0 + (fix g c).1 ≡ lacks c
unfolding fix named
fix-lacks g c = ground arith

fix_claims-Each :
    (g : Hashes) (cs : List Claim)
    → Each (ClaimResolved g) cs (fix_claims g cs).0
      × (claims_without (fix_claims g cs).0 + (fix_claims g cs).1 ≡ claims_without cs)
unfolding fix_claims claims_without
fix_claims-Each g [] = (tt, refl)
fix_claims-Each g (c ∷ cs) = (
  ((refl, fix-Resolved g c.names), (fix_claims-Each g cs).0),
  omega (arith, fix-lacks g c.names, (fix_claims-Each g cs).1),
)

fix_offers-Each :
    (g : Hashes) (cs : List Offer)
    → Each (OfferResolved g) cs (fix_offers g cs).0
      × (offers_without (fix_offers g cs).0 + (fix_offers g cs).1 ≡ offers_without cs)
unfolding fix_offers offers_without
fix_offers-Each g [] = (tt, refl)
fix_offers-Each g (c ∷ cs) = (
  ((refl, fix-Resolved g c.names), (fix_offers-Each g cs).0),
  omega (arith, fix-lacks g c.names, (fix_offers-Each g cs).1),
)

fix_states-Each :
    (g : Hashes) (cs : List HarvestState)
    → Each (StateResolved g) cs (fix_states g cs).0
      × (states_without (fix_states g cs).0 + (fix_states g cs).1 ≡ states_without cs)
unfolding fix_states states_without
fix_states-Each g [] = (tt, refl)
fix_states-Each g (c ∷ cs) = (
  ((refl, fix-Resolved g c.names), (fix_states-Each g cs).0),
  omega (arith, fix-lacks g c.names, (fix_states-Each g cs).1),
)

-- `resolveClaims` keeps every claim, offer and harvest state with all its fields but the two names. A name that is
-- there stays; an empty one becomes the text that the table has for its hash, and stays empty only if there is no hash
-- or the table has no text for it. The count is by how much fewer rows are without a parcel.
pub resolve_claims-Resolved :
    (g : Hashes) (r : Rows)
    → Each (ClaimResolved g) r.claimed (resolve_claims g r).0.claimed
      × Each (OfferResolved g) r.offers (resolve_claims g r).0.offers
      × Each (StateResolved g) r.harvest_states (resolve_claims g r).0.harvest_states
      × (without_parcel (resolve_claims g r).0 + (resolve_claims g r).1 ≡ without_parcel r)
unfolding resolve_claims
resolve_claims-Resolved g r =
    let c = fix_claims-Each g r.claimed in
    let o = fix_offers-Each g r.offers in
    let s = fix_states-Each g r.harvest_states in (c.0, o.0, s.0, omega (arith, c.1, o.1, s.1))
