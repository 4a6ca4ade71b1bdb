-- ===== src/Tests/Locks.antt =====
-- Two tasks for one record, spelled in two ways: the second waits.
use astropath_dns_relay.Prelude.{
  ◌≡◌, ◌≤◌, refl, true, [], ◌∷◌, Text, lower, text_eq, text_beq, some,
}
use astropath_dns_relay.Prelude.Dict.{lookup}
use astropath_dns_relay.Dns.Labels.{Labels, labels_dns, name, canonicalize, beq, to_text}
use astropath_dns_relay.DataPlane.Locks.{Locks, record_key, enter, enters, Reachable, start, next}
use astropath_dns_relay.DataPlane.Locks.Exclusion.{inside_for, Progresses, Reachable-exclusive}

abbrev idle : Locks
idle = record { locks = []; inside = [] }

abbrev lower_name : Labels
lower_name = name "_acme-challenge.example.com"

abbrev upper_name : Labels
upper_name = name "_ACME-challenge.Example.com"

abbrev owner : Text
owner = record_key lower_name

abbrev two_tasks : Locks
two_tasks = enter 2 owner (enter 1 owner idle)

two_enter : Reachable two_tasks
two_enter = next (next start (enters idle 1 owner)) (enters (enter 1 owner idle) 2 owner)

same_name : labels_dns.beq lower_name upper_name ≡ true
unfolding name canonicalize text_beq beq lower
same_name = refl

Reachable-exclusive_example :
    (record_key upper_name ≡ owner)
    × (inside_for owner two_tasks.inside ≤ 1)
    × Progresses owner two_tasks (lookup owner two_tasks.locks)
Reachable-exclusive_example =
    Reachable-exclusive two_tasks lower_name upper_name two_enter same_name

second_waits : lookup owner two_tasks.locks ≡ some (record { locked = true; waiters = 2 ∷ [] })
unfolding enter text_beq record_key name canonicalize to_text lower
second_waits = refl
