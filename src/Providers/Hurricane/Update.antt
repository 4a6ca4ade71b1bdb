-- ===== src/Providers/Hurricane/Update.antt =====
-- When an update of a Hurricane Electric record succeeds.
use astropath_dns_relay.Prelude.{
  ◌<◌, Bool, true, ◌≡◌, ◌≢◌, ◌↔◌, ◌⊎◌, refl, subst, Option, none, some, Text, codes, lower,
  contains, text_eq, text_beq_iff, arith, rstrip,
}
use astropath_dns_relay.Prelude.Dict.{lookup}
use astropath_dns_relay.Providers.Base.{done, crashed}
use astropath_dns_relay.Providers.Http.{
  Response, Posted, response, http_error, RetryPolicy, Final, finished, value_error, stopped,
  post_with_retry,
}
use astropath_dns_relay.Providers.Http.Retry.{post_with_retry_stops, sent}
use astropath_dns_relay.Providers.Hurricane.{
  Hurricane, Form, first_word, normalize_record, key_for, judge_status, judge, update_with, update,
}
use astropath_dns_relay.Providers.Hurricane.Words.{
  IsFirstWord, IsFirstWord-unique, first_word-IsFirstWord,
}

-- The status words that count as success; the last two only for the overwrite of a cleanup.
abbrev pub IsGood : Bool → Text → Type 0
IsGood cleanup status =
    ((status ≡ codes "good") ⊎ (status ≡ codes "nochg"))
    ⊎ (cleanup ≡ true) × ((status ≡ codes "noipv4") ⊎ (status ≡ codes "noipv6"))

judge_status_iff :
    (cleanup : Bool) (hostname status : Text)
    → (judge_status cleanup hostname status ≡ done) ↔ IsGood cleanup status
unfolding judge_status contains
judge_status_iff cleanup hostname status = ground (
  arith,
  text_beq_iff (codes "good") status,
  text_beq_iff (codes "nochg") status,
  text_beq_iff (codes "noipv4") status,
  text_beq_iff (codes "noipv6") status,
)

judge_status-ne-crashed :
    (cleanup : Bool) (hostname status : Text) → judge_status cleanup hostname status ≢ crashed
unfolding judge_status
judge_status-ne-crashed cleanup hostname status = ground arith

-- A final response that means success.
abbrev pub IsAccepted : Bool → Final → Type 0
IsAccepted cleanup final =
    (r : Response) × (final ≡ finished (response r))
    × (r.status_code ≡ 200)
    × ((w : Text) × IsFirstWord r.text w × IsGood cleanup (lower w))

judge_iff :
    (cleanup : Bool) (hostname : Text) (final : Final)
    → (judge cleanup hostname final ≡ done) ↔ IsAccepted cleanup final
unfolding judge
judge_iff cleanup hostname (finished (response r)) = (
  λ h. (
    r,
    refl,
    ground arith,
    (
      first_word r.text,
      first_word-IsFirstWord r.text,
      (judge_status_iff cleanup hostname (lower (first_word r.text))).0 (ground arith),
    ),
  ),
  λ (q, e, ok, (w, first, good)). ground (
    arith,
    IsFirstWord-unique q.text w first,
    (judge_status_iff cleanup hostname (lower w)).1 good,
  ),
)
judge_iff cleanup hostname (finished (http_error kind)) = (λ h. cc, λ (r, e, _, _). cc)
judge_iff cleanup hostname value_error = (λ h. cc, λ (r, e, _, _). cc)
judge_iff cleanup hostname stopped = (λ h. cc, λ (r, e, _, _). cc)

module _ {W : Type 0} (post : Form → W → Posted × W) (policy : RetryPolicy) where
  -- The form of an update.
  abbrev pub form_for : Text → Text → Text → Form
  form_for record_name password txt_value = record {
    hostname = lower (rstrip b'.' record_name);
    password = password;
    txt = txt_value;
  }

  judge-ne-crashed :
      (cleanup : Bool) (hostname : Text) (final : Final) (r : Posted)
      → final ≡ finished r
      → judge cleanup hostname final ≢ crashed
  unfolding judge
  judge-ne-crashed cleanup hostname final (response r) e =
      ground (arith, judge_status-ne-crashed cleanup hostname (lower (first_word r.text)))
  judge-ne-crashed cleanup hostname final (http_error kind) e = ground arith

  update_with_done_iff :
      (record_name txt_value : Text) (cleanup : Bool) (w : W) (found : Option Text)
      → ((update_with post policy cleanup record_name txt_value found w).0 ≡ done) ↔ (
          (key : Text) × (found ≡ some key)
          × IsAccepted cleanup
              (post_with_retry (post (form_for record_name key txt_value)) policy w).0)
  unfolding update_with normalize_record
  update_with_done_iff record_name txt_value cleanup w none = (λ h. cc, λ (key, e, _). cc)
  update_with_done_iff record_name txt_value cleanup w (some key) =
      let final = post_with_retry (post (form_for record_name key txt_value)) policy w in
      let (there, back) = judge_iff cleanup (normalize_record record_name) final.0 in
      (
        λ h. (key, refl, there h),
        λ (k, e, accepted). back (
            subst
              (λ k.
                IsAccepted cleanup
                  (post_with_retry (post (form_for record_name k txt_value)) policy w).0)
              (ground arith) accepted),
      )

  update_with-ne-crashed :
      (record_name txt_value : Text) (cleanup : Bool) (w : W) (found : Option Text)
      → 0 < policy.max_attempts
      → (update_with post policy cleanup record_name txt_value found w).0 ≢ crashed
  unfolding update_with normalize_record
  update_with-ne-crashed record_name txt_value cleanup w none lt = cc
  update_with-ne-crashed record_name txt_value cleanup w (some key) lt =
      let request = post (form_for record_name key txt_value) in
      let (k, stop) = post_with_retry_stops request policy w lt in
      judge-ne-crashed cleanup (normalize_record record_name) (post_with_retry request policy w).0
        (sent request k w).0 stop.result

  -- An update returns exactly if there is a key for the name without its final dots and in lower
  -- case, and the retried post of the form (that name, that key, the value) ends in a response with status 200 whose first word is
  -- good or nochg, or for a cleanup also noipv4 or noipv6. Otherwise it raises `ProviderError`:
  -- with at least one attempt allowed, no other exception leaves it.
  pub update_done_iff :
      (h : Hurricane) (record_name txt_value : Text) (cleanup : Bool) (w : W)
      → 0 < policy.max_attempts
      → (((update post policy h record_name txt_value cleanup w).0 ≡ done) ↔ (
          (key : Text) × (lookup (lower (rstrip b'.' record_name)) h.record_keys ≡ some key)
          × IsAccepted cleanup
              (post_with_retry (post (form_for record_name key txt_value)) policy w).0))
        × ((update post policy h record_name txt_value cleanup w).0 ≢ crashed)
  unfolding update key_for normalize_record
  update_done_iff h record_name txt_value cleanup w lt =
      let found = key_for h record_name in
      (
        update_with_done_iff record_name txt_value cleanup w found,
        update_with-ne-crashed record_name txt_value cleanup w found lt,
      )
