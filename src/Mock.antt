-- ===== src/Mock.antt =====
-- scripts/mock_brave.py: the server that stands for Brave in the end-to-end test, as `handle_any`
-- answers requests one after another under its lock. Times are in nanoseconds.
pub mod Pacing
pub mod Refusals
use brave_search_api_rotator.Base.{
  ℕ, suc, ◌+◌, ◌-◌, ◌%◌, Bool, ◌&&◌, ◌||◌, List, [], ◌∷◌, ◌++◌, Option, none, some, ltb, leb, ◌==◌,
  if◌then◌else◌, length, is_empty, from_secs,
}
use brave_search_api_rotator.Text.Numbers.{to_string}
use brave_search_api_rotator.Text.{Text, codes, equal, starts_with}

-- MOCK_RPS and MOCK_MONTH.
pub record Settings : Type 0 where
  pub rps : ℕ
  pub month : ℕ

abbrev pub mock_window : ℕ
mock_window = from_secs 1

-- The header X-RateLimit-Limit of `rl_headers`.
abbrev pub limit_header : Settings → Text
limit_header s = to_string s.rps ++ (codes ", " ++ to_string s.month)

-- The entries of the three dictionaries `sends`, `used` and `calls` for one key.
pub record KeyLog : Type 0 where
  pub sends : List ℕ
  pub used : ℕ
  pub calls : ℕ

abbrev pub Logs : Type 0
Logs = Text → KeyLog

abbrev pub no_logs : Logs
no_logs key = record { sends = []; used = 0; calls = 0 }

abbrev pub put : Text → KeyLog → Logs → Logs
put key log logs other = if equal key other then log else logs other

-- The answers 401, 500, the two with 429, and 200.
pub data Reply : Type 0 where
  invalid_token : Reply
  internal_error : Reply
  quota_exceeded : Reply
  rate_limit_exceeded : Reply
  served : Reply

-- `while q and now - q[0] >= WINDOW: q.popleft()`.
unfoldable pub pop_old : ℕ → List ℕ → List ℕ
pop_old now [] = []
pop_old now (t ∷ q) = if leb mock_window (now - t) then pop_old now q else t ∷ q

-- The block under the lock, given the entries of the key: the entries afterwards, and the answer.
unfoldable pub answer_key : Settings → Text → KeyLog → ℕ → KeyLog × Reply
unfolding pop_old
answer_key s key log now =
    let called = record log { calls = log.calls + 1 } in
    let kept = record called { sends = pop_old now log.sends } in
    if starts_with key (codes "flaky") && called.calls % 2 == 0
    then (called, internal_error)
    else if ltb 0 s.month && leb s.month log.used
    then (kept, quota_exceeded)
    else if leb s.rps (length kept.sends)
    then (kept, rate_limit_exceeded)
    else (record kept { sends = kept.sends ++ now ∷ []; used = kept.used + 1 }, served)

unfoldable pub handle_any : Settings → Logs → Option Text → ℕ → Logs × Reply
unfolding answer_key
handle_any s logs none now = (logs, invalid_token)
handle_any s logs (some key) now =
    if is_empty key || starts_with key (codes "bad")
    then (logs, invalid_token)
    else let answered = answer_key s key (logs key) now in (put key answered.0 logs, answered.1)

-- The answers to requests with their keys and times.
unfoldable pub handle_all : Settings → Logs → List (Text × ℕ) → List (Text × Reply)
unfolding handle_any
handle_all s logs [] = []
handle_all s logs ((key, now) ∷ rest) =
    let handled = handle_any s logs (some key) now in (key, handled.1) ∷ handle_all s handled.0 rest
