-- ===== src/SyncProtocol/Options.antt =====
-- `SyncProtocolOptions::resolve`.
--
-- Durations are whole numbers of milliseconds, of either sign. The jitter is a floating-point number:
-- a type with the test that it is below 0.0 or above 1.0.
use ndn_svs.Base.{
  ℕ, zero, suc, ◌≡◌, Bool, true, false, not, ◌||◌, Option, none, some, Result, ok, Error, throw_if,
  ◌>>◌, Ensures-throw_if, Ensures-ok, arith,
}
use ndn_svs.VersionVector.{is_bootstrap_time_too_far_in_future}
use ndn_svs.Core.State.{Version, v2, v3}

pub data ℤ : Type 0 where
  pos : ℕ → ℤ
  negsuc : ℕ → ℤ

unfoldable pub is_positive : ℤ → Bool
is_positive (pos (suc n)) = true
is_positive (pos zero) = false
is_positive (negsuc n) = false

unfoldable pub is_negative : ℤ → Bool
is_negative (pos n) = false
is_negative (negsuc n) = true

pub record SyncProtocolOptions (Jitter : Type 0) : Type 0 where
  pub version : Version
  pub bootstrap_time : Option ℕ
  pub sync_interest_lifetime : Option ℤ
  pub suppression_period : Option ℤ
  pub periodic_timeout : Option ℤ
  pub periodic_jitter : Jitter

pub record ResolvedSyncProtocolOptions (Jitter : Type 0) : Type 0 where
  pub version : Version
  pub bootstrap_time : Option ℕ
  pub sync_interest_lifetime : ℤ
  pub suppression_period : ℤ
  pub periodic_timeout : ℤ
  pub periodic_jitter : Jitter

unfoldable pub value_or : {A : Type 0} → Option A → A → A
value_or none d = d
value_or (some a) d = a

-- 1 ms and 500 ms, or 1 s and 200 ms
unfoldable pub default_lifetime : Version → ℤ
default_lifetime v2 = pos 1
default_lifetime v3 = pos 1000

unfoldable pub default_suppression : Version → ℤ
default_suppression v2 = pos 500
default_suppression v3 = pos 200

unfoldable pub bootstrap_too_far : ℕ → Option ℕ → Bool
bootstrap_too_far now none = false
bootstrap_too_far now (some b) = is_bootstrap_time_too_far_in_future now b

or_false : (a b c : Bool) → (not a || b || not c) ≡ false → (a ≡ true) × (b ≡ false) × (c ≡ true)
or_false a b c h = ground arith

-- the options with the defaults of their version
unfoldable pub with_defaults :
    {Jitter : Type 0} → SyncProtocolOptions Jitter → ResolvedSyncProtocolOptions Jitter
unfolding default_lifetime default_suppression value_or
with_defaults o = record {
  version = o.version;
  bootstrap_time = o.bootstrap_time;
  sync_interest_lifetime = value_or o.sync_interest_lifetime (default_lifetime o.version);
  suppression_period = value_or o.suppression_period (default_suppression o.version);
  periodic_timeout = value_or o.periodic_timeout (pos 30000);
  periodic_jitter = o.periodic_jitter;
}

unfoldable pub timers_out_of_range : {Jitter : Type 0} → ResolvedSyncProtocolOptions Jitter → Bool
unfolding is_positive is_negative
timers_out_of_range r =
    not (is_positive r.sync_interest_lifetime)
    || is_negative r.suppression_period
    || not (is_positive r.periodic_timeout)

module _ {Jitter : Type 0} (out_of_range : Jitter → Bool) where
  unfoldable pub resolve :
      ℕ → SyncProtocolOptions Jitter → Result (ResolvedSyncProtocolOptions Jitter)
  unfolding with_defaults timers_out_of_range bootstrap_too_far
  resolve now o = do
    throw_if (out_of_range o.periodic_jitter) Error.invalid_argument
    let resolved = with_defaults o
    throw_if (timers_out_of_range resolved) Error.invalid_argument
    throw_if (bootstrap_too_far now resolved.bootstrap_time) Error.invalid_argument
    ok resolved

  -- options that the core can run on
  pub record IsRunnable (now : ℕ) (r : ResolvedSyncProtocolOptions Jitter) : Type 0 where
    pub jitter : out_of_range r.periodic_jitter ≡ false
    pub lifetime : is_positive r.sync_interest_lifetime ≡ true
    pub suppression : is_negative r.suppression_period ≡ false
    pub timeout : is_positive r.periodic_timeout ≡ true
    pub bootstrap : bootstrap_too_far now r.bootstrap_time ≡ false

  -- Options that are resolved are runnable: the jitter is in its range, the lifetime and the period
  -- are positive, the suppression period is not negative, and the bootstrap time is not too far ahead.
  pub resolve-IsRunnable :
      (now : ℕ) (o : SyncProtocolOptions Jitter) (r : ResolvedSyncProtocolOptions Jitter)
      → resolve now o ≡ ok r
      → IsRunnable now r
  unfolding resolve with_defaults timers_out_of_range
  resolve-IsRunnable now o r = Ensures-ok (IsRunnable now) (resolve now o) r (
      Ensures-throw_if (IsRunnable now) (out_of_range o.periodic_jitter) Error.invalid_argument _
        λ h.
          Ensures-throw_if (IsRunnable now) (timers_out_of_range (with_defaults o))
            Error.invalid_argument _
            λ k.
              Ensures-throw_if (IsRunnable now) (bootstrap_too_far now o.bootstrap_time)
                Error.invalid_argument (ok (with_defaults o))
                λ l.
                  let resolved = with_defaults o in
                  let timers =
                    or_false (is_positive resolved.sync_interest_lifetime)
                      (is_negative resolved.suppression_period)
                      (is_positive resolved.periodic_timeout) k in
                  record {
                    jitter = h;
                    lifetime = timers.0;
                    suppression = timers.1;
                    timeout = timers.2;
                    bootstrap = l;
                  })
