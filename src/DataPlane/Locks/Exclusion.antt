-- ===== src/DataPlane/Locks/Exclusion.antt =====
-- At most one task is inside for a record.
use astropath_dns_relay.Prelude.{
  ℕ, ◌+◌, ◌≤◌, true, false, ◌≡◌, Option, none, some, List, [], ◌∷◌, ◌++◌, Text, text_eq,
  text_beq_iff, ◌==◌, arith, refl, subst, sym, ap, Bool-cases, Option-cases, inl, inr, ◌⊎◌,
  if◌then◌else◌,
}
use astropath_dns_relay.Prelude.Dict.{Dict, lookup, lookup-insert}
use astropath_dns_relay.Dns.{DnsName}
use astropath_dns_relay.DataPlane.Locks.{
  Lock, new_lock, Locks, record_key, change_lock, lock_for, enter, admit_waiter, leave, abandon,
  Step, enters, resumes, leaves, abandons, Reachable, start, next,
}

-- How many tasks are inside for a record.
unfoldable pub inside_for : Text → List (ℕ × Text) → ℕ
inside_for key [] = 0
inside_for key ((task, k) ∷ tasks) = (if k == key then 1 else 0) + inside_for key tasks

abbrev held : Option Lock → ℕ
held none = 0
held (some lock) = if lock.locked then 1 else 0

-- The lock of every record is held exactly by the task inside.
abbrev Agrees : Locks → Type 0
Agrees s = (key : Text) → inside_for key s.inside ≡ held (lookup key s.locks)

inside_for-middle :
    (key : Text) (before after : List (ℕ × Text)) (task : ℕ) (k : Text)
    → inside_for key (before ++ (task, k) ∷ after)
      ≡ (if k == key then 1 else 0) + inside_for key (before ++ after)
unfolding inside_for
inside_for-middle key [] after task k = refl
inside_for-middle key ((t, j) ∷ before) after task k =
    omega (arith, inside_for-middle key before after task k)

lock_for_lem :
    (key : Text) (locks : Dict Text Lock) (k : Text)
    → (held (lookup k (lock_for key locks).1) ≡ held (lookup k locks))
      × (lookup key (lock_for key locks).1 ≡ some (lock_for key locks).0)
unfolding lock_for
lock_for_lem key locks k = elim (Option-cases (lookup key locks)) [
  | inl new ↦
      rw (new, lock_for)
        (
          ground (arith, new, lookup-insert key k new_lock locks, text_beq_iff key k),
          ground (arith, lookup-insert key key new_lock locks, text_beq_iff key key),
        )
  | inr (lock, old) ↦ rw (old, lock_for) (refl, old)
]

-- After a change of the lock of one record, which the dict holds.
held-change_lock :
    (key k : Text) (lock old : Lock) (locks : Dict Text Lock)
    → lookup key locks ≡ some old
    → held (lookup k (change_lock key lock locks))
      ≡ (if key == k then held (some lock) else held (lookup k locks))
unfolding change_lock lookup
held-change_lock key k lock old [] has = absurd (ground arith)
held-change_lock key k lock old ((j, mine) ∷ locks) has = ground (
  arith,
  text_beq_iff j key,
  text_beq_iff j k,
  text_beq_iff key k,
  held-change_lock key k lock old locks,
)

enter-Agrees : (task : ℕ) (key : Text) (s : Locks) → Agrees s → Agrees (enter task key s)
unfolding enter inside_for
enter-Agrees task key s h k =
    let lock : Lock = (lock_for key s.locks).0 in
    let locks : Dict Text Lock = (lock_for key s.locks).1 in
    let (others, stored) = lock_for_lem key s.locks k in
    let (own, _) = lock_for_lem key s.locks key in
    ground (
      arith,
      h k,
      h key,
      others,
      own,
      stored,
      text_beq_iff key k,
      held-change_lock key k (record lock { locked = true }) lock locks stored,
      held-change_lock key k (record lock { waiters = lock.waiters ++ task ∷ [] }) lock locks
          stored,
    )

Step-Agrees : (s t : Locks) → Step s t → Agrees s → Agrees t
unfolding admit_waiter leave abandon inside_for
Step-Agrees _ _ (enters s task key) h k = enter-Agrees task key s h k
Step-Agrees _ _ (resumes s task key waiters free) h k = ground (
  arith,
  h k,
  h key,
  free,
  text_beq_iff key k,
  held-change_lock key k (record { locked = true; waiters = waiters })
      (record { locked = false; waiters = task ∷ waiters }) s.locks free,
)
Step-Agrees _ _ (leaves s before after task key lock at has) h k =
    let mine = subst (λ x. inside_for key x ≡ held (lookup key s.locks)) at (h key) in
    let ours = subst (λ x. inside_for k x ≡ held (lookup k s.locks)) at (h k) in
    ground (
      arith,
      mine,
      ours,
      has,
      text_beq_iff key k,
      text_beq_iff key key,
      inside_for-middle key before after task key,
      inside_for-middle k before after task key,
      held-change_lock key k (record lock { locked = false }) lock s.locks has,
    )
Step-Agrees _ _ (abandons s before after task key lock has at) h k = ground (
  arith,
  h k,
  h key,
  has,
  text_beq_iff key k,
  held-change_lock key k (record lock { waiters = before ++ after }) lock s.locks has,
)

Reachable-Agrees : (s : Locks) → Reachable s → Agrees s
unfolding inside_for lookup
Reachable-Agrees _ start k = refl
Reachable-Agrees _ (next {s} {t} r step) k = Step-Agrees s t step (Reachable-Agrees s r) k

held-le : (o : Option Lock) → held o ≤ 1
held-le none = omega arith
held-le (some lock) = ground arith

-- Where a task waits, one is inside, or the first that waits can go on.
abbrev pub Progresses : Text → Locks → Option Lock → Type 0
Progresses key s none = Unit
Progresses key s (some lock) = elim lock.waiters [
  | [] ↦ Unit
  | task ∷ waiters ↦ (inside_for key s.inside ≡ 1) ⊎ Step s (admit_waiter task key waiters s)
]

progress_lem :
    (key : Text) (s : Locks) (lock : Lock) (waiters : List ℕ)
    → lookup key s.locks ≡ some lock
    → lock.waiters ≡ waiters
    → inside_for key s.inside ≡ held (some lock)
    → elim waiters as (λ _. Type 0) [
      | [] ↦ Unit
      | task ∷ waiters ↦ (inside_for key s.inside ≡ 1) ⊎ Step s (admit_waiter task key waiters s)
    ]
progress_lem key s lock [] has waits agrees = tt
progress_lem key s lock (task ∷ waiters) has waits agrees = elim (Bool-cases lock.locked) [
  | inl held ↦ inl (ground (arith, agrees, held))
  | inr free ↦ inr (resumes s task key waiters (ground (arith, has, waits, free)))
]

Reachable-Progresses :
    (key : Text) (s : Locks) (o : Option Lock)
    → Reachable s
    → lookup key s.locks ≡ o
    → Progresses key s o
Reachable-Progresses key s none r has = tt
Reachable-Progresses key s (some lock) r has =
    progress_lem key s lock lock.waiters has refl
      (subst (λ o. inside_for key s.inside ≡ held o) has (Reachable-Agrees s r key))

-- In every interleaving of tasks that enter, wait, leave and are cancelled: for an owner name, however
-- it is spelled, at most one task is inside the `async with` in which `dispatch` calls the provider,
-- since names that are equal have one key; and where tasks wait for it, one is inside or the first of
-- them can go on.
pub Reachable-exclusive :
    {N : Type 0} ⦃d : DnsName N⦄
    → (s : Locks) (name other : N) → Reachable s
    → d.beq name other ≡ true
    → (record_key other ≡ record_key name)
      × (inside_for (record_key name) s.inside ≤ 1)
      × Progresses (record_key name) s (lookup (record_key name) s.locks)
unfolding record_key
Reachable-exclusive ⦃d⦄ s name other r same =
    let key = record_key name in
    (
      ap d.to_text (sym ((d.beq_iff name other).0 same)),
      subst (λ n. n ≤ 1) (sym (Reachable-Agrees s r key)) (held-le (lookup key s.locks)),
      Reachable-Progresses key s (lookup key s.locks) r refl,
    )
