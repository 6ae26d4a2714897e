-- ===== src/Ftp/ConnectionLaws.antt =====
-- The retries of `perform_curl_operation` in src/ftp_client.c.
use mathlib.Core.Path.{subst}
use net_chunk.Base.{
  ℕ, zero, suc, ◌+◌, ◌-◌, ◌≤◌, ◌<◌, true, false, ◌&&◌, Option, none, some, List, ◌≡◌, ◌≢◌, ◌↔◌, ◌⊎◌,
  refl, arith, ltb, leb, inl, inr, Bool-cases, ErrorCode, success, ftp,
}
use native.Mathlib.Decide.{dec_lt}
use net_chunk.Ftp.Connection.{
  CurlCode, fine, couldnt_connect, timed_out, recv_error, send_error, cant_get_host, no_memory,
  couldnt_read_file, remote_file_not_found, access_denied, other, Answer, stored_message,
  is_transient, is_fine, map_error, max_retries, Outcome, perform_from, perform_curl_operation,
}

map_error_ne : (code : CurlCode) → is_fine code ≡ false → map_error code ≢ success
map_error_ne fine h e = cc
map_error_ne couldnt_connect h e = cc
map_error_ne timed_out h e = cc
map_error_ne recv_error h e = cc
map_error_ne send_error h e = cc
map_error_ne cant_get_host h e = cc
map_error_ne no_memory h e = cc
map_error_ne couldnt_read_file h e = cc
map_error_ne remote_file_not_found h e = cc
map_error_ne access_denied h e = cc
map_error_ne other h e = cc

-- The errors of the network that are worth another try.
abbrev pub IsTransient : CurlCode → Type 0
IsTransient code =
    (code ≡ couldnt_connect)
    ⊎ ((code ≡ timed_out) ⊎ ((code ≡ recv_error) ⊎ ((code ≡ send_error) ⊎ (code ≡ cant_get_host))))

IsTransient-test : (code : CurlCode) → IsTransient code → is_transient code ≡ true
IsTransient-test code (inl e) = rw e refl
IsTransient-test code (inr (inl e)) = rw e refl
IsTransient-test code (inr (inr (inl e))) = rw e refl
IsTransient-test code (inr (inr (inr (inl e)))) = rw e refl
IsTransient-test code (inr (inr (inr (inr e)))) = rw e refl

test-IsTransient : (code : CurlCode) → is_transient code ≡ true → IsTransient code
test-IsTransient fine e = cc
test-IsTransient couldnt_connect e = inl refl
test-IsTransient timed_out e = inr (inl refl)
test-IsTransient recv_error e = inr (inr (inl refl))
test-IsTransient send_error e = inr (inr (inr (inl refl)))
test-IsTransient cant_get_host e = inr (inr (inr (inr refl)))
test-IsTransient no_memory e = cc
test-IsTransient couldnt_read_file e = cc
test-IsTransient remote_file_not_found e = cc
test-IsTransient access_denied e = cc
test-IsTransient other e = cc

is_fine_iff : (code : CurlCode) → (is_fine code ≡ true) ↔ (code ≡ fine)
is_fine_iff fine = (λ e. refl, λ h. refl)
is_fine_iff couldnt_connect = (λ e. cc, λ h. cc)
is_fine_iff timed_out = (λ e. cc, λ h. cc)
is_fine_iff recv_error = (λ e. cc, λ h. cc)
is_fine_iff send_error = (λ e. cc, λ h. cc)
is_fine_iff cant_get_host = (λ e. cc, λ h. cc)
is_fine_iff no_memory = (λ e. cc, λ h. cc)
is_fine_iff couldnt_read_file = (λ e. cc, λ h. cc)
is_fine_iff remote_file_not_found = (λ e. cc, λ h. cc)
is_fine_iff access_denied = (λ e. cc, λ h. cc)
is_fine_iff other = (λ e. cc, λ h. cc)

fine_stops : (code : CurlCode) → is_fine code ≡ true → ¬ IsTransient code
fine_stops code f t =
    let same = (is_fine_iff code).0 f in
    let again : is_transient fine ≡ true =
      subst (λ c. is_transient c ≡ true) same (IsTransient-test code t) in
    cc again

stop_reason :
    (n : ℕ) (code : CurlCode)
    → (ltb (suc n) max_retries && is_transient code) ≡ false
    → n < 3
    → (suc n ≡ 3) ⊎ (¬ IsTransient code)
stop_reason n code stop room = elim (dec_lt (suc n) 3) [
  | no last ↦ inl (omega arith)
  | yes more ↦ inr (λ t. absurd (ground (arith, stop, more, IsTransient-test code t)))
]

module _ (answers : ℕ → Answer) where
  -- The outcome of the tries from the `n`-th on.
  pub record IsOutcomeFrom (n : ℕ) (o : Outcome) : Type 0 where
    pub made : n < o.tries
    pub few : o.tries ≤ 3
    pub earlier : (k : ℕ) → n ≤ k → suc k < o.tries → IsTransient (answers k).code
    pub stopped : (o.tries ≡ 3) ⊎ (¬ IsTransient (answers (o.tries - 1)).code)
    pub verdict :
        (o.code ≡ success)
        ↔ (((answers (o.tries - 1)).code ≡ fine) × ((answers (o.tries - 1)).response < 400))

  later :
      {n m : ℕ} (k : ℕ)
      → n ≤ k
      → suc k < m
      → IsTransient (answers n).code
      → ((k : ℕ) → suc n ≤ k → suc k < m → IsTransient (answers k).code)
      → IsTransient (answers k).code
  later {n} {m} k le lt here rest = elim (dec_lt n k) [
    | yes more ↦ rest k (omega arith) lt
    | no not_more ↦
        let same : n ≡ k = omega arith in subst (λ i. IsTransient (answers i).code) same here
  ]

  -- The loop ends at the `n`-th try.
  ended :
      (n : ℕ) (code : ErrorCode) (message : Option (List ℕ))
      → n < max_retries
      → (code ≡ success) ↔ (((answers n).code ≡ fine) × ((answers n).response < 400))
      → (suc n ≡ 3) ⊎ (¬ IsTransient (answers n).code)
      → IsOutcomeFrom n (record { code = code; tries = suc n; message = message })
  ended n code message room verdict stop = record {
    made = omega arith;
    few = omega arith;
    earlier = λ k le lt. absurd (omega arith);
    verdict =
        subst (λ m. (code ≡ success) ↔ (((answers m).code ≡ fine) × ((answers m).response < 400)))
          last verdict;
    stopped = subst (λ m. (suc n ≡ 3) ⊎ (¬ IsTransient (answers m).code)) last stop;
  }
    where
      last : n ≡ suc n - 1
      last = omega arith

  perform_from_lem :
      (fuel n : ℕ) (before : Option (List ℕ))
      → n + fuel ≡ max_retries
      → 0 < fuel
      → IsOutcomeFrom n (perform_from answers fuel n before)
  unfolding perform_from
  perform_from_lem zero n before full some_left = absurd (omega arith)
  perform_from_lem (suc fuel) n before full some_left =
      let a = answers n in
      elim (Bool-cases (is_fine a.code)) [
        | inl f ↦ elim (Bool-cases (leb 400 a.response)) [
          | inl late ↦
              rw (perform_from, f, late)
                (ended n ftp _ (omega arith) (λ e. cc, λ h. absurd (ground (arith, late, h)))
                  (inr (fine_stops a.code f)))
          | inr early ↦
              rw (perform_from, f, early)
                (ended n success _ (omega arith)
                  (λ e. ((is_fine_iff a.code).0 f, ground (arith, early)), λ h. refl)
                  (inr (fine_stops a.code f)))
        ]
        | inr f ↦ elim (Bool-cases (ltb (suc n) max_retries && is_transient a.code)) [
          | inl again ↦
              let next =
                perform_from_lem fuel (suc n) (some (stored_message a.message)) (omega arith)
                  (ground (arith, again, full)) in
              rw (perform_from, f, again)
                (record {
                  made = omega (arith, next.made);
                  few = next.few;
                  earlier = λ k le lt.
                      later k le lt (test-IsTransient a.code (ground (arith, again))) next.earlier;
                  stopped = next.stopped;
                  verdict = next.verdict;
                })
          | inr stop ↦
              rw (perform_from, f, stop)
                (ended n (map_error a.code) _ (omega arith)
                  (
                    λ e. absurd (map_error_ne a.code f e),
                    λ h. absurd (cc (f, (is_fine_iff a.code).1 h.0)),
                  )
                  (stop_reason n a.code stop (omega arith)))
        ]
      ]

  -- The loop calls libcurl at least once and at most three times; every try but the last failed with
  -- an error of the network that may pass; it stops before the third only at a try that did not fail
  -- with such an error; and it returns SUCCESS exactly if the last try succeeded with
  -- a response below 400.
  pub perform_curl_operation_lem : IsOutcomeFrom 0 (perform_curl_operation answers)
  unfolding perform_curl_operation
  perform_curl_operation_lem = perform_from_lem max_retries 0 none refl (omega arith)
