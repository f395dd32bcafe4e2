-- ===== src/Actions/Land.antt =====
-- srv/static/game.js: `doClaim`, `doHarvest`, `doHarvestForest`, `doConvert` and `doDigWell`, the actions on the
-- selected parcel.
use Prim.Native.String.{◌++◌ as append}
use siedler_sterreich.Prelude.{
  ℕ, String, Bool, true, not, ◌&&◌, List, [], ◌∷◌, ◌++◌, Option, none, some, ltb, ◌==◌, str_eq,
  delete, if◌then◌else◌,
}
use siedler_sterreich.Landuse.Code.{extract_lu_code}
use siedler_sterreich.Landuse.Water.{Frac}
use siedler_sterreich.Regrowth.Hash.{simple_hash}
use siedler_sterreich.Regrowth.Field.{field_kind_for, parcel_crop}
use siedler_sterreich.Regrowth.Value.{is_crop_field}
use siedler_sterreich.Toasts.{ok}
use siedler_sterreich.Actions.{
  Player, Selected, Page, Notice, Call, Run, Reply, refused, granted, pid_of, percent, is_part,
  call_if, refuse, ask, ignore, says, later, deal_fx, collect_fx, updates_stats, renders,
  invalidates_base, loads_challenges, shows_popup, hints, buy, bought, regrowing, tracker,
  gauge_keeper, harvest, timber, drinking_water, wild_forest, restored, converted, well, returns,
  throws, waits, claim_parcel, harvest_parcel, harvest_forest, convert_parcel, dig_well, claims,
  bio,
}

-- The replies, with what the handlers read of them; a bonus or a sum of 0 is absent.
pub record Bought : Type 0 where
  pub price : ℕ
  pub inherited : Bool
  pub regen : Option Frac
  pub ne_bonus_xp : ℕ
  pub station_bonus_xp : ℕ
  pub tall_bonus_xp : ℕ
  pub player : Player

pub record Harvested : Type 0 where
  pub coins : ℕ
  pub xp : ℕ
  pub efm : ℕ
  pub player : Player

pub record Converted : Type 0 where
  pub water_protection : Bool
  pub ne_restore : Bool
  pub xp_reward : ℕ
  pub player : Player

pub record Dug : Type 0 where
  pub xp : ℕ
  pub player : Player

-- `doClaim`, up to its request.
unfoldable pub do_claim : Page → Run
unfolding extract_lu_code
do_claim g = elim g.sel [
  | none ↦ ignore g
  | some f ↦
      ask
        (claim_parcel f (extract_lu_code "" f.parcel.facts.lu) (parcel_crop f.plot.field)
          (if g.tall_revealed then f.tall_count else 0)
          (if g.tall_revealed then f.tall_max_h else 0))
        g
]

abbrev pub deal_call : Option Selected → ℕ → List Call
deal_call none price = []
deal_call (some f) price = deal_fx buy f price ∷ []

abbrev inherited_call : Bool → Option Frac → List Call
inherited_call inherited none = []
inherited_call inherited (some share) =
    call_if (inherited && is_part (some share)) (later 600 (says ok (regrowing (percent share))))

unfoldable pub do_claim_reply : Reply Bought → Page → Run
do_claim_reply (refused e status) g = refuse e g
do_claim_reply (granted res) g = record {
  page = record g { player = res.player };
  calls =
      deal_call g.sel res.price
      ++ (inherited_call res.inherited res.regen
          ++ (call_if (ltb 0 res.ne_bonus_xp) (later 1400 (says ok (tracker res.ne_bonus_xp)))
              ++ (call_if (ltb 0 res.station_bonus_xp)
                    (later 900 (says ok (gauge_keeper res.station_bonus_xp)))
                  ++ says ok (bought res.price res.tall_bonus_xp) ∷ updates_stats ∷ [])));
  ends = waits claims;
}

-- `showParcelPopup(G.sel)`, which reads the feature, and what comes after it.
unfoldable pub show_selected : List Call → List Call → Page → Run
show_selected before after g = elim g.sel [
  | none ↦ record { page = g; calls = before; ends = throws }
  | some f ↦ record {
    page = record g { sel = some f; parcel_popup_open = true };
    calls = before ++ shows_popup f ∷ after;
    ends = returns;
  }
]

-- The end of `doClaim`, for the parcel that it was called for.
unfoldable pub do_claim_rest : Selected → Page → Run
unfolding show_selected is_crop_field field_kind_for simple_hash
do_claim_rest f g =
    show_selected (renders ∷ [])
      (loads_challenges
        ∷ hints "first_claim"
        ∷ call_if
            (is_crop_field f.plot
              && not (field_kind_for f.plot.field (simple_hash f.plot.field.id_units) == 3))
            (hints "first_field"))
      g

-- `doHarvest`
unfoldable pub do_harvest : Page → Run
do_harvest g = elim g.sel [
  | none ↦ ignore g
  | some f ↦ ask (harvest_parcel (pid_of f) (parcel_crop f.plot.field) f.organic) g
]

-- After the reply `featureLonLat(G.sel)` reads the selection as it is by then.
unfoldable pub do_harvest_reply : Selected → Reply Harvested → Page → Run
unfolding delete
do_harvest_reply p (refused e status) g = refuse e g
do_harvest_reply p (granted res) g = elim g.sel [
  | none ↦ record { page = g; calls = []; ends = throws }
  | some f ↦ record {
    page = record g { player = res.player; field_eco = delete (pid_of p) g.field_eco };
    calls = collect_fx f.spot res.coins ∷ says ok (harvest res.coins res.xp) ∷ updates_stats ∷ [];
    ends = waits claims;
  }
]

-- The end of `doHarvest`, of `doHarvestForest` and of `doConvert`.
unfoldable pub rest : Page → Run
unfolding show_selected
rest g = show_selected (renders ∷ []) (loads_challenges ∷ []) g

-- `doHarvestForest`
unfoldable pub do_harvest_forest : Page → Run
do_harvest_forest g = elim g.sel [ none ↦ ignore g | some f ↦ ask (harvest_forest (pid_of f)) g ]

unfoldable pub do_harvest_forest_reply : Selected → Reply Harvested → Page → Run
unfolding delete
do_harvest_forest_reply p (refused e status) g = refuse e g
do_harvest_forest_reply p (granted res) g = elim g.sel [
  | none ↦ record { page = g; calls = []; ends = throws }
  | some f ↦ record {
    page = record g {
      player = res.player;
      scenes = delete (append (pid_of p) ":schlag") g.scenes;
      forest_values = delete (pid_of p) g.forest_values;
    };
    calls =
        collect_fx f.spot res.coins
        ∷ says ok (timber res.efm res.coins res.xp)
        ∷ updates_stats
        ∷ [];
    ends = waits claims;
  }
]

-- `doConvert(to)`
unfoldable pub do_convert : String → Page → Run
do_convert to g = elim g.sel [
  | none ↦ ignore g
  | some f ↦ ask (convert_parcel (pid_of f) to f.spot) g
]

abbrev pub water_call : Bool → List Call
water_call b = call_if b (later 900 (says ok drinking_water))

unfoldable pub do_convert_reply : String → Reply Converted → Page → Run
unfolding delete
do_convert_reply to (refused e status) g = refuse e g
do_convert_reply to (granted res) g =
    if str_eq to "wildforest"
    then elim g.sel [
      | none ↦ record { page = g; calls = water_call res.water_protection; ends = throws }
      | some f ↦
          told (wild_forest res.xp_reward)
            (record g { scenes = delete (append (pid_of f) ":wild") g.scenes })
    ]
    else told (if res.ne_restore then restored res.xp_reward else converted res.xp_reward) g
  where
    told : Notice → Page → Run
    told notice page = record {
      page = record page { player = res.player };
      calls = water_call res.water_protection ++ says ok notice ∷ updates_stats ∷ [];
      ends = waits claims;
    }

-- Between the two loads of `doConvert`.
abbrev pub do_convert_reloaded : Page → Run
do_convert_reloaded g = ask bio g

-- `doDigWell`, which reads the selection only before it asks.
unfoldable pub do_dig_well : Page → Run
do_dig_well g = elim g.sel [ none ↦ ignore g | some f ↦ ask (dig_well (pid_of f) f.spot) g ]

unfoldable pub do_dig_well_reply : Selected → Reply Dug → Page → Run
unfolding delete
do_dig_well_reply p (refused e status) g = refuse e g
do_dig_well_reply p (granted res) g = record {
  page = record g { player = res.player; field_eco = delete (pid_of p) g.field_eco };
  calls = collect_fx p.spot res.xp ∷ says ok (well res.xp) ∷ updates_stats ∷ [];
  ends = waits claims;
}

unfoldable pub do_dig_well_rest : Page → Run
unfolding show_selected
do_dig_well_rest g = show_selected (invalidates_base ∷ renders ∷ []) (loads_challenges ∷ []) g
