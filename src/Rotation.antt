-- ===== src/Rotation.antt =====
-- rotation.py: `rotate_stored_secrets`, which encrypts every stored secret again with the first key.
pub mod Drop
use astropath_dns_relay.Prelude.{ℕ, zero, suc, ◌+◌, Option, none, some, List, [], ◌∷◌, length}
use astropath_dns_relay.Prelude.Optional.{◌>>=◌}
use astropath_dns_relay.Models.{Backend, Domain, TsigKey, Tables}

pub record RotationCounts : Type 0 where
  pub backends : ℕ
  pub domains : ℕ
  pub tsig_keys : ℕ

-- The property `total`
abbrev pub total : RotationCounts → ℕ
total counts = counts.backends + counts.domains + counts.tsig_keys

-- `kek.rotate`; none where it raises `InvalidToken`. Its number is the randomness of one encryption.
module _ {T : Type 0} (rotate : ℕ → T → Option T) where
  unfoldable pub rotate_backends : ℕ → List (Backend T) → Option (List (Backend T))
  rotate_backends n [] = some []
  rotate_backends n (row ∷ rows) = do
    token ← rotate n row.config_encrypted
    rows ← rotate_backends (suc n) rows
    some (record row { config_encrypted = token } ∷ rows)

  -- The rows, and how many had a secret.
  unfoldable pub rotate_domain : ℕ → Domain T → Option T → Option (ℕ × Domain T)
  rotate_domain n row none = some (0, row)
  rotate_domain n row (some secret) = do
    token ← rotate n secret
    some (1, record row { secret_encrypted = some token })

  unfoldable pub rotate_domains : ℕ → List (Domain T) → Option (ℕ × List (Domain T))
  unfolding rotate_domain
  rotate_domains n [] = some (0, [])
  rotate_domains n (row ∷ rows) = do
    (one, row) ← rotate_domain n row row.secret_encrypted
    (count, rows) ← rotate_domains (suc n) rows
    some (one + count, row ∷ rows)

  unfoldable pub rotate_tsig_keys : ℕ → List (TsigKey T) → Option (List (TsigKey T))
  rotate_tsig_keys n [] = some []
  rotate_tsig_keys n (row ∷ rows) = do
    token ← rotate n row.secret_encrypted
    rows ← rotate_tsig_keys (suc n) rows
    some (record row { secret_encrypted = token } ∷ rows)

  -- The counts and the committed tables; none where a token is refused, and nothing is committed.
  unfoldable pub rotate_stored_secrets : Tables T → Option (RotationCounts × Tables T)
  unfolding rotate_backends rotate_domains rotate_tsig_keys
  rotate_stored_secrets tables = do
    backends ← rotate_backends zero tables.backends
    (rotated, domains) ← rotate_domains (length backends) tables.domains
    tsig_keys ← rotate_tsig_keys (length backends + length domains) tables.tsig_keys
    some (
      record { backends = length backends; domains = rotated; tsig_keys = length tsig_keys },
      record { backends = backends; domains = domains; tsig_keys = tsig_keys },
    )
