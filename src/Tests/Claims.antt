-- ===== src/Tests/Claims.antt =====
-- Three claims: one resolved, one to be resolved, one that no table knows.
use siedler_sterreich.Prelude.{◌+◌, List, [], ◌∷◌, String, ◌≡◌}
use siedler_sterreich.Claims.{Claim, Hashes, Rows, unset, resolve_claims}
use siedler_sterreich.Claims.Resolve.{
  Each, ClaimResolved, OfferResolved, StateResolved, without_parcel, resolve_claims-Resolved,
}

abbrev claim : String → String → Claim
claim hash id = record {
  names = record { parcel_hash = hash; parcel_id = id; ez_hash = "e1"; ez = "" };
  player_id = "anna";
  landuse = "56";
  converted_to = "";
  convert_xp = 0;
  purchase_price = 400;
  harvested_at = unset;
}

abbrev claims : List Claim
claims = claim "h1" "01004-1" ∷ claim "h2" "" ∷ claim "h3" "" ∷ []

abbrev hashes : Hashes
hashes = record { pid_by_hash = ("h2", "01004-2") ∷ []; ez_by_hash = ("e1", "88") ∷ [] }

abbrev rows : Rows
rows = record {
  claimed = claims;
  offers = record { names = (claim "h2" "").names; offer_price = 90 } ∷ [];
  harvest_states =
      record { names = (claim "h3" "").names; crop_group = "getreide"; harvested_at = unset } ∷ [];
}

resolve_claims-Resolved_example :
    Each (ClaimResolved hashes) rows.claimed (resolve_claims hashes rows).0.claimed
    × Each (OfferResolved hashes) rows.offers (resolve_claims hashes rows).0.offers
    × Each (StateResolved hashes) rows.harvest_states (resolve_claims hashes rows).0.harvest_states
    × (without_parcel (resolve_claims hashes rows).0 + (resolve_claims hashes rows).1
        ≡ without_parcel rows)
resolve_claims-Resolved_example = resolve_claims-Resolved hashes rows
