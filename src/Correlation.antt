-- ===== src/Correlation.antt =====
-- correlation.py: the correlation id of the current context, its scope, the ids, and the filter that
-- stamps it onto log records. Random bytes, in hexadecimal, are arguments.
use astropath_dns_relay.Prelude.{
  ℕ, ◌+◌, ◌*◌, ◌/◌, ◌%◌, ◌-◌, Option, none, some, [], ◌∷◌, ◌++◌, Text, codes, ltb, if◌then◌else◌,
}

-- The value of the ContextVar.
abbrev pub Context : Type 0
Context = Option Text

abbrev pub unset : Text
unset = codes "-"

unfoldable pub hex_digit : ℕ → ℕ
hex_digit n = if ltb n 10 then b'0' + n else b'a' + (n - 10)

-- `f"{n:04x}"` of a number below 65,536
unfoldable pub hex4 : ℕ → Text
unfolding hex_digit
hex4 n =
    hex_digit (n / 4096)
    ∷ hex_digit (n / 256 % 16)
    ∷ hex_digit (n / 16 % 16)
    ∷ hex_digit (n % 16)
    ∷ []

unfoldable pub new_dns_correlation_id : ℕ → Text → Text
unfolding hex4
new_dns_correlation_id request_id token =
    codes "dns-" ++ (hex4 (request_id % 65536) ++ (b'-' ∷ token))

unfoldable pub new_api_correlation_id : Text → Text
new_api_correlation_id token = codes "api-" ++ token

-- `with correlation_scope(value)`, also when the block raises: the context is as before
unfoldable pub correlation_scope :
    {A : Type 0} → Text → (Context → A × Context) → Context → A × Context
correlation_scope value body context = ((body (some value)).0, context)

-- `CorrelationIdFilter.filter`: the id of a record
unfoldable pub stamp_of : Context → Text
stamp_of none = unset
stamp_of (some []) = unset
stamp_of (some (c ∷ id)) = c ∷ id

-- `int.from_bytes(wire[:2], "big") if len(wire) >= 2 else 0` of protocol.py
unfoldable pub request_id_of : Text → ℕ
request_id_of (a ∷ b ∷ wire) = a * 256 + b
request_id_of wire = 0

-- `handle_query` of protocol.py around `_process_query`
unfoldable pub handle_query :
    {A : Type 0} → (Text → Context → A × Context) → Text → Text → Context → A × Context
unfolding new_dns_correlation_id request_id_of correlation_scope
handle_query process_query token wire =
    correlation_scope (new_dns_correlation_id (request_id_of wire) token) (process_query wire)
