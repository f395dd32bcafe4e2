-- ===== src/Actions/Answers/Folio.antt =====
-- The parcels that `doClaimEZ` asks for are those of the folio that nobody has.
use Prim.Native.String.{◌++◌ as append}
use siedler_sterreich.Prelude.{
  String, not, ◌&&◌, List, [], ◌∷◌, ◌++◌, has, eq_iff, ◌≡◌, refl, ap, ◌∙◌, arith,
}
use siedler_sterreich.Folio.{Parcel, EzIndex, group, has_parcel, build_ez_index}
use siedler_sterreich.Folio.Current.{IsBuilt, index_of, search_folio, build_ez_index-search}
use siedler_sterreich.Actions.{Held, Page, FolioRow, Ends, returns, throws, waits, claim_ez}
use siedler_sterreich.Actions.Market.{is_claimed, unclaimed, folio_rows, ask_folio, do_claim_ez}

abbrev pub ids : List FolioRow → List String
ids [] = []
ids (row ∷ rows) = row.parcel_id ∷ ids rows

abbrev pub ids_asked : Ends → List String
ids_asked returns = []
ids_asked throws = []
ids_asked (waits (claim_ez kg_code ez rows)) = ids rows
ids_asked (waits _) = []

abbrev pub folio_key : String → String → String
folio_key kg_code ez = append kg_code (append "-EZ" ez)

has_parcel-unclaimed :
    (pid : String) (held : List Held) (ps : List Parcel)
    → has_parcel pid (unclaimed held ps) ≡ (has_parcel pid ps && not (is_claimed pid held))
unfolding has_parcel unclaimed
has_parcel-unclaimed pid held [] = refl
has_parcel-unclaimed pid held (p ∷ ps) =
    ground (arith, has_parcel-unclaimed pid held ps, eq_iff p.parcel_id pid)

has-folio_rows :
    (pid : String) (ps : List Parcel) → has pid (ids (folio_rows ps)) ≡ has_parcel pid ps
unfolding has has_parcel folio_rows
has-folio_rows pid [] = refl
has-folio_rows pid (p ∷ ps) = ground (arith, has-folio_rows pid ps)

ids_asked-ask_folio :
    (pid kg_code ez : String) (g : Page) (ps : List Parcel)
    → has pid (ids_asked (ask_folio kg_code ez g ps).ends) ≡ has_parcel pid ps
unfolding ask_folio has has_parcel
ids_asked-ask_folio pid kg_code ez g [] = refl
ids_asked-ask_folio pid kg_code ez g (p ∷ ps) = has-folio_rows pid (p ∷ ps)

asked-unclaimed :
    (pid kg_code ez : String) (g : Page)
    → has pid (ids_asked (do_claim_ez kg_code ez g).ends)
      ≡ has_parcel pid (unclaimed g.claimed (group (folio_key kg_code ez) g.ez_index))
unfolding do_claim_ez
asked-unclaimed pid kg_code ez g =
    ids_asked-ask_folio pid kg_code ez g
      (unclaimed g.claimed (group (folio_key kg_code ez) g.ez_index))

-- The page whose index the last buildEZIndex has made.
abbrev pub indexed : List Parcel → List Parcel → EzIndex → Page → Page
indexed polys parcels e g = record g { ez_index = index_of (build_ez_index polys parcels e) }

-- doClaimEZ asks for a parcel exactly if a search through the loaded parcels finds it in the folio and no resolved
-- claim has it, provided that buildEZIndex has run for these parcels, first or after an index of fewer of them.
pub do_claim_ez-search :
    (pid kg_code ez : String) (polys more_polys parcels more_parcels : List Parcel) (e : EzIndex)
    (g : Page)
    → IsBuilt polys parcels e
    → has pid (
        ids_asked
          (do_claim_ez kg_code ez
            (indexed (polys ++ more_polys) (parcels ++ more_parcels) e g)).ends)
      ≡ (has_parcel pid
            (search_folio (folio_key kg_code ez) (polys ++ more_polys) (parcels ++ more_parcels))
          && not (is_claimed pid g.claimed))
do_claim_ez-search pid kg_code ez polys more_polys parcels more_parcels e g b =
    asked-unclaimed pid kg_code ez (indexed (polys ++ more_polys) (parcels ++ more_parcels) e g)
    ∙ has_parcel-unclaimed pid g.claimed (
        group (folio_key kg_code ez)
          (index_of (build_ez_index (polys ++ more_polys) (parcels ++ more_parcels) e)))
    ∙ ap (λ l. has_parcel pid l && not (is_claimed pid g.claimed))
        (build_ez_index-search (folio_key kg_code ez) polys more_polys parcels more_parcels e b)
