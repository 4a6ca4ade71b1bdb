-- ===== src/Tests/Providers.antt =====
-- The provider backends over small services.
use astropath_dns_relay.Prelude.{
  ℕ, zero, suc, true, false, not, ◌&&◌, ◌||◌, ◌≡◌, ◌≢◌, ◌↔◌, refl, subst, sym, Option, none, some,
  List, [], ◌∷◌, map, Text, codes, contains, text_eq, text_beq, text_beq_iff, ◌==◌, if◌then◌else◌,
  arith, All, lower, rstrip,
}
use astropath_dns_relay.Prelude.Dict.{lookup}
use astropath_dns_relay.Providers.Base.{done, crashed}
use astropath_dns_relay.Providers.Http.{
  Posted, response, RetryPolicy, default_policy, post_with_retry,
}
use astropath_dns_relay.Providers.Http.Retry.{StopsAt, post_with_retry_stops}
use astropath_dns_relay.Providers.Hurricane.{
  Hurricane, Form, key_for, update, normalize_record, first_word, judge, judge_status,
}
use astropath_dns_relay.Providers.Hurricane.Update.{IsAccepted, form_for, update_done_iff}
use astropath_dns_relay.Providers.Route53.{
  Call, answered, failed, RecordSet, Change, upsert, delete, Client, Route53, route53_init,
  normalize_name, quote, present, cleanup, with_rrset, publish, merge, values_eq, find_txt, change,
  wait_insync, clear, reduce,
}
use astropath_dns_relay.Providers.Route53.Quote.{dequote, dequote-quote}
use astropath_dns_relay.Providers.Route53.Zone.{HostedZone}
use astropath_dns_relay.Providers.Route53.Writes.{names, holds, present_done, cleanup_done}

abbrev policy : RetryPolicy
policy = default_policy (λ attempt. 0)

-- A service that is unavailable for the given number of requests, and then answers `good`.
abbrev respond : ℕ → Posted × ℕ
respond zero = (response (record { status_code = 200; text = codes "good 192.0.2.1" }), zero)
respond (suc n) = (response (record { status_code = 503; text = [] }), n)

post_with_retry_stops_example :
    (k : ℕ) × StopsAt respond policy 3 k 2 [] (post_with_retry respond policy 2)
post_with_retry_stops_example = post_with_retry_stops respond policy 2 (omega arith)

abbrev keys : Hurricane
keys = record {
  record_keys = (codes "_acme-challenge.example.com", codes "key") ∷ [];
  cleanup_placeholder = codes "cleared";
}

abbrev spelled : Text
spelled = codes "_acme-challenge.Example.com."

abbrev service : Form → ℕ → Posted × ℕ
service form n = respond n

-- The name in another spelling has the key, and the service accepts the value.
accepted : (update service policy keys spelled (codes "token") false 1).0 ≡ done
unfolding update key_for normalize_record rstrip lower lookup text_beq post_with_retry first_word
    judge judge_status contains
accepted = refl

update_done_iff_example :
    (((update service policy keys spelled (codes "token") false 1).0 ≡ done) ↔ (
      (key : Text) × (lookup (lower (rstrip b'.' spelled)) keys.record_keys ≡ some key)
      × IsAccepted false
          (post_with_retry
            (service (form_for service policy spelled key (codes "token")))
            policy
            1).0))
    × ((update service policy keys spelled (codes "token") false 1).0 ≢ crashed)
update_done_iff_example =
    update_done_iff service policy keys spelled (codes "token") false 1 (omega arith)

abbrev owner : Text
owner = codes "_acme-challenge.example.com."

-- A hosted zone that has at most one record set, the TXT values at `owner`.
abbrev set_of : Option (ℕ × List Text) → Option RecordSet
set_of none = none
set_of (some (ttl, values)) =
    some (record { kind = "TXT"; name = owner; ttl = some ttl; values = values })

abbrev listed : Option RecordSet → List RecordSet
listed none = []
listed (some r) = r ∷ []

abbrev zone_change :
    Change → Text → ℕ → List Text → Option (ℕ × List Text) → Call Text × Option (ℕ × List Text)
zone_change upsert n ttl values w =
    if n == owner then (answered (codes "C1"), some (ttl, values)) else (failed "ClientError", w)
zone_change delete n ttl values w =
    if n == owner then (answered (codes "C1"), none) else (failed "ClientError", w)

abbrev client : Client (Option (ℕ × List Text))
client = record {
  list_resource_record_sets = λ n w. (answered (if owner == n then listed (set_of w) else []), w);
  change_resource_record_sets = zone_change;
  get_change = λ id w. (answered "INSYNC", w);
  get_hosted_zone = λ w. (answered tt, w);
}

abbrev view : Option (ℕ × List Text) → Text → Option RecordSet
view w n = if owner == n then set_of w else none

owner_normal : normalize_name owner ≡ owner
unfolding normalize_name lower rstrip
owner_normal = refl

view_named :
    (w : Option (ℕ × List Text)) (n : Text) (r : RecordSet)
    → view w n ≡ some r
    → (r.kind ≡ "TXT") × (normalize_name r.name ≡ n)
view_named none n r e = ground (arith, text_beq_iff owner n)
view_named (some (ttl, values)) n r e =
    (ground (arith, text_beq_iff owner n), ground (arith, text_beq_iff owner n, owner_normal))

abbrev IsElsewhere : Text → RecordSet → Type 0
IsElsewhere n r = r.kind ≡ "TXT" → normalize_name r.name ≢ n

nothing_listed :
    (w : Option (ℕ × List Text)) (n : Text)
    → view w n ≡ none
    → (if owner == n then listed (set_of w) else []) ≡ []
nothing_listed none n e = ground arith
nothing_listed (some (ttl, values)) n e = ground arith

nothing_found :
    (w : Option (ℕ × List Text)) (n : Text) (sets : List RecordSet)
    → Call.answered (if owner == n then listed (set_of w) else []) ≡ answered sets
    → view w n ≡ none
    → sets ≡ []
nothing_found w n sets e absent =
    let none_there = nothing_listed w n absent in ground (arith, none_there)

zone : HostedZone client
zone = record {
  view = view;
  view_named = view_named;
  list_found = λ w n sets r e there. ground (arith, text_beq_iff owner n);
  list_absent =
      λ w n sets e absent. subst (All (IsElsewhere n)) (sym (nothing_found w n sets e absent)) tt;
  list_reads = λ w n m. refl;
  get_change_reads = λ w id m. refl;
  upserted = λ w n m ttl values id e.
      ground (arith, text_beq_iff n owner, text_beq_iff owner m, text_beq_iff n m);
  deleted = λ w n m ttl values id e.
      ground (arith, text_beq_iff n owner, text_beq_iff owner m, text_beq_iff n m);
}

abbrev cfg : Route53
cfg = route53_init (codes "Z1") true

abbrev token : List Text
token = codes "token" ∷ []

published : (present cfg client (codes "example.com.") owner token none).0 ≡ done
unfolding present with_rrset publish normalize_name lower rstrip merge values_eq find_txt change
    wait_insync quote contains text_beq
published = refl

present_done_example :
    holds cfg client zone
      (present cfg client (codes "example.com.") owner token none).1
      owner
      (quote (codes "token"))
    ≡ (holds cfg client zone none owner (quote (codes "token"))
        || normalize_name owner == owner && contains (map quote token) (quote (codes "token")))
present_done_example =
    present_done cfg client zone (codes "example.com.") owner token none owner
      (quote (codes "token")) published

abbrev two : Option (ℕ × List Text)
two = some (60, codes "x" ∷ codes "y" ∷ [])

cleared : (cleanup cfg client (codes "example.com.") owner [] two).0 ≡ done
unfolding cleanup with_rrset clear reduce normalize_name lower rstrip find_txt change wait_insync
    text_beq
cleared = refl

cleanup_done_example :
    holds cfg client zone
      (cleanup cfg client (codes "example.com.") owner [] two).1
      owner
      (codes "x")
    ≡ (holds cfg client zone two owner (codes "x")
        && not (normalize_name owner == owner && names [] (codes "x")))
cleanup_done_example =
    cleanup_done cfg client zone (codes "example.com.") owner [] two owner (codes "x") cleared

dequote-quote_example : dequote (quote (codes "a\"b")) ≡ some (codes "a\"b")
dequote-quote_example = dequote-quote (codes "a\"b")
