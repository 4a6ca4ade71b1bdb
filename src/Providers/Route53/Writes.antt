-- ===== src/Providers/Route53/Writes.antt =====
-- `present` adds values to a record set and `cleanup` removes them, as operations on sets.
use mathlib.Core.Option
use astropath_dns_relay.Prelude.{
  Bool, true, not, ◌&&◌, ◌||◌, ◌≡◌, refl, Option, none, some, List, [], ◌∷◌, ◌++◌, map, Text, keep,
  contains, text_eq, text_beq_iff, ◌==◌, if◌then◌else◌, arith, inl, inr, Bool-cases,
}
use astropath_dns_relay.Providers.Base.{Reply, done}
use astropath_dns_relay.Providers.Route53.{
  RecordSet, Client, Route53, normalize_name, quote, with_rrset, merge, remaining, values_eq,
  publish, clear, reduce, present, cleanup, record_values,
}
use astropath_dns_relay.Providers.Route53.Zone.{
  Call-cases, HostedZone, find_txt-view, view-change_upsert, view-change_delete,
}

contains-append :
    (xs ys : List Text) (v : Text) → contains (xs ++ ys) v ≡ (contains xs v || contains ys v)
unfolding contains
contains-append [] ys v = refl
contains-append (x ∷ xs) ys v = ground (arith, contains-append xs ys v)

contains-merge :
    (m vs : List Text) (v : Text) → contains (merge m vs) v ≡ (contains m v || contains vs v)
unfolding contains merge
contains-merge m [] v = ground arith
contains-merge m (x ∷ vs) v = ground (
  arith,
  contains-merge m vs v,
  contains-merge (m ++ x ∷ []) vs v,
  contains-append m (x ∷ []) v,
  text_beq_iff x v,
)

contains-keep :
    (p : Text → Bool) (xs : List Text) (v : Text) → contains (keep p xs) v ≡ (contains xs v && p v)
unfolding keep contains
contains-keep p [] v = refl
contains-keep p (x ∷ xs) v = ground (arith, contains-keep p xs v, text_beq_iff x v)

contains-remaining :
    (xs remove : List Text) (v : Text)
    → contains (remaining xs remove) v ≡ (contains xs v && not (contains remove v))
unfolding remaining
contains-remaining xs remove v = contains-keep (λ x. not (contains remove x)) xs v

values_eq-eq : (s t : List Text) → values_eq s t ≡ true → s ≡ t
unfolding values_eq
values_eq-eq [] [] h = refl
values_eq-eq [] (b ∷ t) h = cc
values_eq-eq (a ∷ s) [] h = cc
values_eq-eq (a ∷ s) (b ∷ t) h = ground (arith, text_beq_iff a b, values_eq-eq s t)

-- The values that a cleanup names: all of them if it names none.
abbrev pub names : List Text → Text → Bool
names [] v = true
names (x ∷ values) v = contains (map quote (x ∷ values)) v

module _ {W : Type 0} (cfg : Route53) (client : Client W) (z : HostedZone client) where
  -- Whether the zone holds a value in the TXT record set at a name.
  abbrev pub holds : W → Text → Text → Bool
  holds w n v = contains (record_values (z.view w n)) v

  publish_done :
      (n m v : Text) (new : List Text) (w : W)
      → (publish cfg client n new (z.view w n) w).0 ≡ done
      → holds (publish cfg client n new (z.view w n) w).1 m v
        ≡ (holds w m v || (n == m && contains new v))
  unfolding publish
  publish_done n m v new w h =
      let current = record_values (z.view w n) in
      let merged = contains-merge current new v in
      elim (Bool-cases (values_eq (merge current new) current)) [
        | inl same ↦
            ground (arith, values_eq-eq (merge current new) current, merged, text_beq_iff n m)
        | inr more ↦ ground (
          arith,
          view-change_upsert cfg client z n m cfg.ttl (merge current new) w,
          merged,
          text_beq_iff n m,
        )
      ]

  reduce_done :
      (n m v : Text) (existing : RecordSet) (stay : List Text) (w : W)
      → z.view w n ≡ some existing
      → (reduce cfg client n existing stay w).0 ≡ done
      → holds (reduce cfg client n existing stay w).1 m v
        ≡ (if n == m then contains stay v else holds w m v)
  unfolding reduce contains
  reduce_done n m v existing [] w e h = ground (
    arith,
    view-change_delete cfg client z n m (Option.get_or existing.ttl cfg.ttl) existing.values w,
    text_beq_iff n m,
  )
  reduce_done n m v existing (x ∷ stay) w e h =
      ground (arith, view-change_upsert cfg client z n m cfg.ttl (x ∷ stay) w, text_beq_iff n m)

  clear_done :
      (n m v : Text) (values : List Text) (found : Option RecordSet) (w : W)
      → z.view w n ≡ found
      → (clear cfg client n values found w).0 ≡ done
      → holds (clear cfg client n values found w).1 m v
        ≡ (holds w m v && not (n == m && names values v))
  unfolding clear contains
  clear_done n m v values none w e h = ground (arith, text_beq_iff n m)
  clear_done n m v [] (some existing) w e h = ground (arith, reduce_done n m v existing [] w e h)
  clear_done n m v (x ∷ values) (some existing) w e h =
      let stay = remaining existing.values (map quote (x ∷ values)) in
      let left = contains-remaining existing.values (map quote (x ∷ values)) v in
      elim (Bool-cases (values_eq stay existing.values)) [
        | inl same ↦ ground (arith, values_eq-eq stay existing.values, left, text_beq_iff n m)
        | inr fewer ↦ ground (arith, reduce_done n m v existing stay w e, left, text_beq_iff n m)
      ]

  -- The read changes nothing and hands on what the zone holds.
  with_rrset_done :
      (n : Text) (rest : Option RecordSet → W → Reply × W) (w : W)
      → (with_rrset cfg client n rest w).0 ≡ done
      → (w' : W) × ((m : Text) → z.view w' m ≡ z.view w m)
        × (with_rrset cfg client n rest w ≡ rest (z.view w' n) w')
  unfolding with_rrset
  with_rrset_done n rest w h =
      let w' = (client.list_resource_record_sets n w).1 in
      elim (Call-cases (client.list_resource_record_sets n w).0) [
        | inr (kind, e) ↦ absurd (ground arith)
        | inl (sets, e) ↦ (
          w',
          λ m. z.list_reads w n m,
          ground (arith, find_txt-view cfg client z w n sets e, z.list_reads w n n),
        )
      ]

  -- After a `present` that returned, the record set at the name holds what it held before and the
  -- quoted values, and all other names hold what they held.
  pub present_done :
      (zone record_name : Text) (values : List Text) (w : W) (m v : Text)
      → (present cfg client zone record_name values w).0 ≡ done
      → holds (present cfg client zone record_name values w).1 m v
        ≡ (holds w m v || (normalize_name record_name == m && contains (map quote values) v))
  unfolding present
  present_done zone record_name values w m v h =
      let n = normalize_name record_name in
      let new = map quote values in
      let (w', same, e) = with_rrset_done n (publish cfg client n new) w h in
      ground (arith, e, same m, publish_done n m v new w')

  -- After a `cleanup` that returned, the record set at the name has lost the quoted values, or all
  -- of its values if none is given, and holds the rest of what it held; all other names hold what
  -- they held.
  pub cleanup_done :
      (zone record_name : Text) (values : List Text) (w : W) (m v : Text)
      → (cleanup cfg client zone record_name values w).0 ≡ done
      → holds (cleanup cfg client zone record_name values w).1 m v
        ≡ (holds w m v && not (normalize_name record_name == m && names values v))
  unfolding cleanup
  cleanup_done zone record_name values w m v h =
      let n = normalize_name record_name in
      let (w', same, e) = with_rrset_done n (clear cfg client n values) w h in
      ground (arith, e, same m, clear_done n m v values (z.view w' n) w' refl)
