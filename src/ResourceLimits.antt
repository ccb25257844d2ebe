-- ===== src/ResourceLimits.antt =====
-- ferrotunnel-core/src/resource_limits.rs: the slots of sessions and of streams. The semaphore of the
-- `tokio` package is an interface, with its documented behaviour as laws; a permit that is dropped gives
-- its slot back.
pub mod Slots
mod Checks
use ferrotunnel.Base.{ℕ, zero, suc, ◌≡◌, refl, arith, Option, none, some, Result, ok, err}

pub record Semaphore (S : Type 0) : Type 0 where
  pub new : ℕ → S
  pub try_acquire : S → Option S
  pub release : S → S
  pub available : S → ℕ
  pub available-new : (n : ℕ) → available (new n) ≡ n
  pub available-acquired : (s s' : S) → try_acquire s ≡ some s' → suc (available s') ≡ available s
  pub available-refused : (s : S) → try_acquire s ≡ none → available s ≡ 0
  pub available-release : (s : S) → available (release s) ≡ suc (available s)

abbrev pub take_one : ℕ → Option ℕ
take_one zero = none
take_one (suc n) = some n

pub take_one-some : (s s' : ℕ) → take_one s ≡ some s' → suc s' ≡ s
take_one-some zero s' e = absurd (ground arith)
take_one-some (suc n) s' e = ground arith

pub take_one-none : (s : ℕ) → take_one s ≡ none → s ≡ 0
take_one-none zero e = refl
take_one-none (suc n) e = absurd (ground arith)

-- A count of free slots is a semaphore.
abbrev pub counter : Semaphore ℕ
counter = record {
  new = λ n. n;
  try_acquire = take_one;
  release = suc;
  available = λ s. s;
  available-new = λ n. refl;
  available-acquired = take_one-some;
  available-refused = take_one-none;
  available-release = λ s. refl;
}

pub data ResourceLimitError : Type 0 where
  max_sessions_reached max_streams_reached : (max : ℕ) → ResourceLimitError

pub record ServerResourceLimits (S : Type 0) : Type 0 where
  pub session_semaphore : S
  pub max_sessions : ℕ
  pub max_streams_per_session : ℕ
  pub max_inflight_frames : ℕ

pub record StreamLimits (S : Type 0) : Type 0 where
  pub stream_semaphore : S
  pub max_streams : ℕ

module _ {S : Type 0} (sem : Semaphore S) where
  unfoldable pub new_limits : ℕ → ℕ → ℕ → ServerResourceLimits S
  new_limits max_sessions max_streams_per_session max_inflight_frames = record {
    session_semaphore = sem.new max_sessions;
    max_sessions = max_sessions;
    max_streams_per_session = max_streams_per_session;
    max_inflight_frames = max_inflight_frames;
  }

  abbrev pub default_limits : ServerResourceLimits S
  default_limits = new_limits 1000 100 100

  unfoldable pub try_acquire_session :
      ServerResourceLimits S → Result ResourceLimitError (Unit {0}) × ServerResourceLimits S
  try_acquire_session l = elim (sem.try_acquire l.session_semaphore) [
    | some after ↦ (ok tt, record l { session_semaphore = after })
    | none ↦ (err (max_sessions_reached l.max_sessions), l)
  ]

  -- The end of a `SessionPermit`.
  unfoldable pub drop_session : ServerResourceLimits S → ServerResourceLimits S
  drop_session l = record l { session_semaphore = sem.release l.session_semaphore }

  abbrev pub available_sessions : ServerResourceLimits S → ℕ
  available_sessions l = sem.available l.session_semaphore

  unfoldable pub new_stream_limits : ℕ → StreamLimits S
  new_stream_limits max_streams = record {
    stream_semaphore = sem.new max_streams;
    max_streams = max_streams;
  }

  abbrev pub create_stream_limits : ServerResourceLimits S → StreamLimits S
  create_stream_limits l = new_stream_limits l.max_streams_per_session

  unfoldable pub try_acquire_stream :
      StreamLimits S → Result ResourceLimitError (Unit {0}) × StreamLimits S
  try_acquire_stream l = elim (sem.try_acquire l.stream_semaphore) [
    | some after ↦ (ok tt, record l { stream_semaphore = after })
    | none ↦ (err (max_streams_reached l.max_streams), l)
  ]

  -- The end of a `StreamPermit`.
  unfoldable pub drop_stream : StreamLimits S → StreamLimits S
  drop_stream l = record l { stream_semaphore = sem.release l.stream_semaphore }

  abbrev pub available_streams : StreamLimits S → ℕ
  available_streams l = sem.available l.stream_semaphore
