-- ===== src/Cadastre/Load/Upgrade.antt =====
-- `loadViewportGeometry` never trades a parcel for a worse copy.
use siedler_sterreich.Prelude.{
  String, Bool, not, ◌&&◌, [], none, some, is_some, or_else, has, ◌≡◌, sym, ◌∙◌, subst, if_split,
  if◌then◌else◌,
}
use siedler_sterreich.Cadastre.Rows.{Answer, Props, Reply, throws, nothing, got}
use siedler_sterreich.Cadastre.Store.{Store, Feature, poly_by_id, down, error}
use siedler_sterreich.Cadastre.Merge.{Progress, merge_parcels}
use siedler_sterreich.Cadastre.Surroundings.{merge_footprints, merge_landuses, merge_kgs}
use siedler_sterreich.Cadastre.Merge.Frame.{
  merge_kgs-Keeps, merge_footprints-Keeps, merge_landuses-Keeps,
}
use siedler_sterreich.Cadastre.Merge.Upgrade.{NoWorse, NoWorse-refl, Holds, merge_parcels-Holds}
use siedler_sterreich.Cadastre.Load.{
  Outcome, settle, set_attribution, note_ne, merge_answer, receive, start_load,
  load_viewport_geometry, release, vp_busy_down,
}
use siedler_sterreich.Cadastre.Load.Laws.{
  note-Keeps, announce-Keeps, refresh-Keeps, settle-Settles, start_load-Keeps,
}

merge_answer-Holds :
    (key : String) (d : Answer) (g : Store) (id : String) (old : Props)
    → Holds id old g.parcel_polys
    → Holds id old (merge_answer key d g).0.parcel_polys
unfolding merge_answer
merge_answer-Holds key d g id old h =
    let told = note_ne d.ne (set_attribution d.notice g) in
    let start : Progress = record {
      store = merge_kgs d.kgs (settle key d told);
      added = 0;
      upgraded = 0;
    } in
    let same =
      (merge_kgs-Keeps d.kgs (settle key d told)).parcel_polys
      ∙ (settle-Settles key d told).parcel_polys
      ∙ (announce-Keeps d.notice d.ne g).parcel_polys in
    let end = merge_parcels (or_else d.parcels []) start in
    let used = merge_landuses d.landuse (merge_footprints d.footprints end.store, 0) in
    let after =
      (refresh-Keeps end.added end.upgraded used.1 used.0).parcel_polys
      ∙ (merge_landuses-Keeps d.landuse (merge_footprints d.footprints end.store, 0)).parcel_polys
      ∙ (merge_footprints-Keeps d.footprints end.store).parcel_polys in
    subst (Holds id old) (sym after)
      (merge_parcels-Holds (or_else d.parcels []) start id old (subst (Holds id old) (sym same) h))

receive-Holds :
    (key : String) (reply : Reply) (g : Store) (id : String) (old : Props)
    → Holds id old g.parcel_polys
    → Holds id old (receive key reply g).0.parcel_polys
unfolding receive
receive-Holds key throws g id old h =
    subst (Holds id old) (sym (note-Keeps key error none none (release key g)).parcel_polys) h
receive-Holds key nothing g id old h =
    subst (Holds id old) (sym (note-Keeps key error (some "") none (release key g)).parcel_polys) h
receive-Holds key (got d) g id old h =
    if_split {A = Store × Outcome} (λ r. Holds id old r.0.parcel_polys)
      (d.error && not (is_some d.parcels))
      (λ _.
        subst (Holds id old)
          (sym
            (note-Keeps key (if d.down then down else error) (some d.xcache) none
              (release key g)).parcel_polys)
          h)
      (λ _. merge_answer-Holds key d g id old h)

-- A parcel that is loaded before a call is loaded after it, and its copy is no worse: complete where it
-- was not, or as complete as it was and at least as large. This is for every reply, forced or not.
pub load_viewport_geometry-NoWorse :
    (force : Bool) (key : String) (reply : Reply) (g : Store) (id : String) (old : Feature)
    → poly_by_id id g.parcel_polys ≡ some old
    → (new : Feature) × (poly_by_id id (load_viewport_geometry force key reply g).0.parcel_polys
        ≡ some new)
      × NoWorse old.props new.props
unfolding load_viewport_geometry
load_viewport_geometry-NoWorse force key reply g id old h =
    if_split {A = Store × Outcome} (λ r. Holds id old.props r.0.parcel_polys)
      (not force && has key g.vp_tiles) (λ _. (old, h, NoWorse-refl old.props))
      (λ _. receive-Holds key reply (vp_busy_down (start_load key g)) id old.props (
        subst (Holds id old.props) (sym (start_load-Keeps key g).1)
          (old, h, NoWorse-refl old.props)))
