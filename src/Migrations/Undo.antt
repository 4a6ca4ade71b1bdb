-- ===== src/Migrations/Undo.antt =====
-- The downgrade takes the upgrade back.
use mathlib.Core.List.{reverse, reverse-cons, reverse-reverse}
use astropath_dns_relay.Prelude.{
  ◌≡◌, ◌∙◌, refl, sym, ap, Option, some, List, [], ◌∷◌, ◌++◌, arith, Option-cases, inl, inr,
}
use astropath_dns_relay.Prelude.Optional.{◌>>=◌, bind-eq-some}
use astropath_dns_relay.Migrations.{
  Operation, create_table, create_index, drop_index, drop_table, run, upgrade, downgrade,
  upgrade_operations, downgrade_operations,
}

-- The operation that takes another one back: those of `downgrade` take back none.
abbrev pub Undoes : Operation → Operation → Type 0
Undoes (drop_table name) (create_table t) = name ≡ t.name
Undoes (drop_index name table_name) (create_index i) = (name ≡ i.name) × (table_name ≡ i.table_name)
Undoes _ _ = ⊥

-- Each operation of a list is taken back by that of another at the same place.
abbrev pub AllUndo : List Operation → List Operation → Type 0
AllUndo [] [] = Unit
AllUndo (d ∷ ds) (u ∷ us) = Undoes d u × AllUndo ds us
AllUndo _ _ = ⊥

module _ {S : Type 0} (execute : Operation → S → Option S) where
  run-append :
      (us vs : List Operation) (s : S)
      → run execute (us ++ vs) s ≡ (run execute us s >>= run execute vs)
  unfolding run
  run-append [] vs s = refl
  run-append (u ∷ us) vs s = elim (Option-cases (execute u s)) [
    | inl fails ↦ rw fails refl
    | inr (s', done) ↦ rw done (run-append us vs s')
  ]

  -- What the database does with the operation that takes another one back, right after it.
  abbrev pub IsUndone : Type 0
  IsUndone =
      (d u : Operation) (s s' : S) → Undoes d u → execute u s ≡ some s' → execute d s' ≡ some s

  run-reverse :
      (ds us : List Operation) (s s' : S)
      → IsUndone
      → AllUndo ds us
      → run execute us s ≡ some s'
      → run execute (reverse ds) s' ≡ some s
  unfolding run
  run-reverse [] [] s s' law h e = ground arith
  run-reverse [] (u ∷ us) s s' law h e = absurd h
  run-reverse (d ∷ ds) [] s s' law h e = absurd h
  run-reverse (d ∷ ds) (u ∷ us) s s' law (first, rest) e =
      let (s1, done, after) = bind-eq-some (execute u s) (run execute us) e in
      let back = run-reverse ds us s1 s' law rest after in
      let last = law d u s s1 first done in
      ap (λ l. run execute l s') (reverse-cons d ds)
      ∙ run-append (reverse ds) (d ∷ []) s'
      ∙ rw (back, last) refl

  downgrade_undoes : AllUndo (reverse downgrade_operations) upgrade_operations
  unfolding upgrade_operations downgrade_operations
  downgrade_undoes = ground arith

  -- After an upgrade that succeeded, from any state of the database, the downgrade succeeds and
  -- restores that state, provided that the drop of what was just created does so for each operation.
  pub downgrade-upgrade :
      (s s' : S) → IsUndone → upgrade execute s ≡ some s' → downgrade execute s' ≡ some s
  unfolding upgrade downgrade
  downgrade-upgrade s s' law e =
      ap (λ l. run execute l s') (sym (reverse-reverse downgrade_operations))
      ∙ run-reverse (reverse downgrade_operations) upgrade_operations s s' law downgrade_undoes e
