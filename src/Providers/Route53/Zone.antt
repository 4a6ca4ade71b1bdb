-- ===== src/Providers/Route53/Zone.antt =====
-- What the provider relies on in Route 53: the TXT record set at each name of the hosted zone, and
-- the effect of the calls on it, as its API reference describes them.
use astropath_dns_relay.Prelude.{
  ℕ, zero, suc, ◌≡◌, ◌≢◌, refl, sym, ◌∙◌, ◌⊎◌, String, Option, none, some, List, [], ◌∷◌, Text,
  text_eq, string_eq, text_beq_iff, ◌==◌, if◌then◌else◌, arith, All, eq_iff, Option-cases, inl, inr,
}
use astropath_dns_relay.Providers.Base.{done}
use astropath_dns_relay.Providers.Route53.{
  Call, answered, failed, RecordSet, Change, upsert, delete, Client, Route53, normalize_name,
  find_txt, wait_insync, change,
}

pub Call-cases :
    {A : Type 0} (c : Call A) → ((a : A) × (c ≡ answered a)) ⊎ ((kind : String) × (c ≡ failed kind))
Call-cases (answered a) = inl (a, refl)
Call-cases (failed kind) = inr (kind, refl)

pub record HostedZone {W : Type 0} (client : Client W) : Type 0 where
  -- the TXT record set at a name
  pub view : W → Text → Option RecordSet
  pub view_named :
      (w : W) (n : Text) (r : RecordSet)
      → view w n ≡ some r
      → (r.kind ≡ "TXT") × (normalize_name r.name ≡ n)
  -- a listing from (name, TXT) with one item finds the set if it is there, and else a later one
  pub list_found :
      (w : W) (n : Text) (sets : List RecordSet) (r : RecordSet)
      → (client.list_resource_record_sets n w).0 ≡ answered sets
      → view w n ≡ some r
      → sets ≡ r ∷ []
  pub list_absent :
      (w : W) (n : Text) (sets : List RecordSet)
      → (client.list_resource_record_sets n w).0 ≡ answered sets
      → view w n ≡ none
      → All (λ (r : RecordSet). r.kind ≡ "TXT" → normalize_name r.name ≢ n) sets
  pub list_reads : (w : W) (n m : Text) → view (client.list_resource_record_sets n w).1 m ≡ view w m
  pub get_change_reads : (w : W) (id m : Text) → view (client.get_change id w).1 m ≡ view w m
  -- an accepted UPSERT replaces the set, an accepted DELETE removes it, a refusal changes nothing
  pub upserted :
      (w : W) (n m : Text) (ttl : ℕ) (values : List Text) (id : Text)
      → (client.change_resource_record_sets upsert n ttl values w).0 ≡ answered id
      → view (client.change_resource_record_sets upsert n ttl values w).1 m ≡ (
          if n == m
          then some (record { kind = "TXT"; name = n; ttl = some ttl; values = values })
          else view w m)
  pub deleted :
      (w : W) (n m : Text) (ttl : ℕ) (values : List Text) (id : Text)
      → (client.change_resource_record_sets delete n ttl values w).0 ≡ answered id
      → view (client.change_resource_record_sets delete n ttl values w).1 m
        ≡ (if n == m then none else view w m)

module _ {W : Type 0} (cfg : Route53) (client : Client W) (z : HostedZone client) where
  find_txt-none :
      (n : Text) (sets : List RecordSet)
      → All (λ (r : RecordSet). r.kind ≡ "TXT" → normalize_name r.name ≢ n) sets
      → find_txt n sets ≡ none
  unfolding find_txt
  find_txt-none n [] h = refl
  find_txt-none n (r ∷ sets) (h, hs) =
      ground (
        arith,
        eq_iff r.kind "TXT",
        text_beq_iff (normalize_name r.name) n,
        find_txt-none n sets hs,
      )

  -- The read returns what the zone holds.
  pub find_txt-view :
      (w : W) (n : Text) (sets : List RecordSet)
      → (client.list_resource_record_sets n w).0 ≡ answered sets
      → find_txt n sets ≡ z.view w n
  unfolding find_txt
  find_txt-view w n sets e = elim (Option-cases (z.view w n)) [
    | inl absent ↦ find_txt-none n sets (z.list_absent w n sets e absent) ∙ sym absent
    | inr (r, there) ↦
        let one = z.list_found w n sets r e there in
        let (kind, name) = z.view_named w n r there in
        ground (arith, eq_iff r.kind "TXT", text_beq_iff (normalize_name r.name) n)
  ]

  view-wait_insync :
      (polls : ℕ) (id m : Text) (w : W)
      → z.view (wait_insync cfg client polls id w).1 m ≡ z.view w m
  unfolding wait_insync
  view-wait_insync zero id m w = refl
  view-wait_insync (suc polls) id m w =
      ground
        (arith, z.get_change_reads w id m, view-wait_insync polls id m (client.get_change id w).1)

  -- A change that returned was accepted, and the polls after it only read.
  change_done :
      (action : Change) (n : Text) (ttl : ℕ) (values : List Text) (w : W)
      → (change cfg client action n ttl values w).0 ≡ done
      → (id : Text) × ((client.change_resource_record_sets action n ttl values w).0 ≡ answered id)
        × ((m : Text)
            → z.view (change cfg client action n ttl values w).1 m
              ≡ z.view (client.change_resource_record_sets action n ttl values w).1 m)
  unfolding change
  change_done action n ttl values w h =
      elim (Call-cases (client.change_resource_record_sets action n ttl values w).0) [
        | inr (kind, e) ↦ absurd (ground arith)
        | inl (id, e) ↦ (
          id,
          e,
          λ m.
              let w' = (client.change_resource_record_sets action n ttl values w).1 in
              ground (arith, view-wait_insync cfg.insync_max_attempts id m w'),
        )
      ]

  -- A change that returned has had its effect on the zone.
  pub view-change_upsert :
      (n m : Text) (ttl : ℕ) (values : List Text) (w : W)
      → (change cfg client upsert n ttl values w).0 ≡ done
      → z.view (change cfg client upsert n ttl values w).1 m ≡ (
          if n == m
          then some (record { kind = "TXT"; name = n; ttl = some ttl; values = values })
          else z.view w m)
  view-change_upsert n m ttl values w h =
      let (id, e, same) = change_done upsert n ttl values w h in
      same m ∙ z.upserted w n m ttl values id e

  pub view-change_delete :
      (n m : Text) (ttl : ℕ) (values : List Text) (w : W)
      → (change cfg client delete n ttl values w).0 ≡ done
      → z.view (change cfg client delete n ttl values w).1 m ≡ (if n == m then none else z.view w m)
  view-change_delete n m ttl values w h =
      let (id, e, same) = change_done delete n ttl values w h in
      same m ∙ z.deleted w n m ttl values id e
