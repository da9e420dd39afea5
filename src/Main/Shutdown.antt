-- ===== src/Main/Shutdown.antt =====
-- What the signals and the promises that settle make src/main.ts do.
use pdn_whatspac_client.Base.{
  ℕ, ◌+◌, ◌≡◌, refl, Bool, true, false, ◌&&◌, ◌||◌, not, List, [], ◌∷◌, ◌++◌, arith,
}
use pdn_whatspac_client.Main.{
  Daemon, up, Event, signal, agent_stopped, web_closed, rf_closed, Effect, stops_agent, closes_web,
  closes_rf, closes_store, exits, step, run,
}

-- How often each thing is done.
abbrev pub Tally : Type 0
Tally = Effect → ℕ

abbrev pub is_stops_agent : Tally
is_stops_agent stops_agent = 1
is_stops_agent _ = 0

abbrev pub is_closes_web : Tally
is_closes_web closes_web = 1
is_closes_web _ = 0

abbrev pub is_closes_rf : Tally
is_closes_rf closes_rf = 1
is_closes_rf _ = 0

abbrev pub is_closes_store : Tally
is_closes_store closes_store = 1
is_closes_store _ = 0

abbrev pub is_exits : Tally
is_exits exits = 1
is_exits _ = 0

abbrev pub count : Tally → List Effect → ℕ
count f [] = 0
count f (e ∷ es) = f e + count f es

abbrev pub one_if : Bool → ℕ
one_if true = 1
one_if false = 0

-- What has happened, read off the events alone.
abbrev is_signal : Event → Bool
is_signal signal = true
is_signal _ = false

abbrev is_agent_stopped : Event → Bool
is_agent_stopped agent_stopped = true
is_agent_stopped _ = false

abbrev is_web_closed : Event → Bool
is_web_closed web_closed = true
is_web_closed _ = false

abbrev is_rf_closed : Event → Bool
is_rf_closed rf_closed = true
is_rf_closed _ = false

abbrev any : (Event → Bool) → List Event → Bool
any p [] = false
any p (e ∷ es) = p e || any p es

abbrev pub signalled : List Event → Bool
signalled es = any is_signal es

abbrev settled : List Event → Bool
settled es = any is_agent_stopped es && (any is_web_closed es && any is_rf_closed es)

-- Behind the first signal the agent and both heads have settled.
abbrev pub settled_after : List Event → Bool
settled_after [] = false
settled_after (signal ∷ es) = settled es
settled_after (e ∷ es) = settled_after es

count-append : (f : Tally) (es fs : List Effect) → count f (es ++ fs) ≡ count f es + count f fs
count-append f [] fs = omega arith
count-append f (e ∷ es) fs = omega (arith, count-append f es fs)

-- A shutdown that has begun, with what has settled so far.
abbrev closing : Bool → Bool → Bool → Daemon
closing a w r = record {
  shutting_down = true;
  agent_settled = a;
  web_settled = w;
  rf_settled = r;
  store_open = not (a && (w && r));
  exited = a && (w && r);
}

abbrev left : Bool → Bool → Bool → List Event → Bool
left a w r es =
    (a || any is_agent_stopped es) && ((w || any is_web_closed es) && (r || any is_rf_closed es))

abbrev Ends : ℕ → Bool → Daemon × List Effect → Type 0
Ends n b (d, effects) =
    (count is_stops_agent effects ≡ 0)
    × (count is_closes_web effects ≡ 0)
    × (count is_closes_rf effects ≡ 0)
    × (count is_closes_store effects + n ≡ one_if b)
    × (count is_exits effects + n ≡ one_if b)
    × (d.exited ≡ b)
    × (d.store_open ≡ not b)

abbrev Closes : Bool → Bool → Bool → List Event → Daemon × List Effect → Type 0
Closes a w r es q = Ends (one_if (a && (w && r))) (left a w r es) q

-- The last of the three settles, with the store and the process behind it.
last-Closes :
    (b : Bool) (r : Daemon × List Effect) → Ends 1 b r → Ends 0 b (r.0, closes_store ∷ exits ∷ r.1)
last-Closes b r (s, w, f, c, e, x, o) =
    (omega (arith, s), omega (arith, w), omega (arith, f), omega (arith, c), omega (arith, e), x, o)

run-Closes : (a w r : Bool) (es : List Event) → Closes a w r es (run es (closing a w r))
unfolding run step
run-Closes false w r [] = (refl, refl, refl, refl, refl, refl, refl)
run-Closes true false r [] = (refl, refl, refl, refl, refl, refl, refl)
run-Closes true true false [] = (refl, refl, refl, refl, refl, refl, refl)
run-Closes true true true [] = (refl, refl, refl, refl, refl, refl, refl)
run-Closes a w r (signal ∷ es) = run-Closes a w r es
run-Closes false false r (agent_stopped ∷ es) = run-Closes true false r es
run-Closes false true false (agent_stopped ∷ es) = run-Closes true true false es
run-Closes false true true (agent_stopped ∷ es) =
    last-Closes true (run es (closing true true true)) (run-Closes true true true es)
run-Closes true false r (agent_stopped ∷ es) = run-Closes true false r es
run-Closes true true false (agent_stopped ∷ es) = run-Closes true true false es
run-Closes true true true (agent_stopped ∷ es) = run-Closes true true true es
run-Closes false false r (web_closed ∷ es) = run-Closes false true r es
run-Closes false true r (web_closed ∷ es) = run-Closes false true r es
run-Closes true false false (web_closed ∷ es) = run-Closes true true false es
run-Closes true false true (web_closed ∷ es) =
    last-Closes true (run es (closing true true true)) (run-Closes true true true es)
run-Closes true true false (web_closed ∷ es) = run-Closes true true false es
run-Closes true true true (web_closed ∷ es) = run-Closes true true true es
run-Closes false false false (rf_closed ∷ es) = run-Closes false false true es
run-Closes false false true (rf_closed ∷ es) = run-Closes false false true es
run-Closes false true false (rf_closed ∷ es) = run-Closes false true true es
run-Closes false true true (rf_closed ∷ es) = run-Closes false true true es
run-Closes true false false (rf_closed ∷ es) = run-Closes true false true es
run-Closes true false true (rf_closed ∷ es) = run-Closes true false true es
run-Closes true true false (rf_closed ∷ es) =
    last-Closes true (run es (closing true true true)) (run-Closes true true true es)
run-Closes true true true (rf_closed ∷ es) = run-Closes true true true es

-- Everything that the first signal and the settled promises do, from any list of events.
abbrev pub ShutsDown : List Event → Daemon × List Effect → Type 0
ShutsDown es (d, effects) =
    (count is_stops_agent effects ≡ one_if (signalled es))
    × (count is_closes_web effects ≡ one_if (signalled es))
    × (count is_closes_rf effects ≡ one_if (signalled es))
    × (count is_closes_store effects ≡ one_if (settled_after es))
    × (count is_exits effects ≡ one_if (settled_after es))
    × (d.exited ≡ settled_after es)
    × (d.store_open ≡ not (settled_after es))

-- The agent is stopped and each head closed once where a signal has come, however often, and never
-- before; and the store is closed and the process left, once, where behind the first signal the
-- agent and both heads have settled, well or not and in any order, and not before.
pub run-ShutsDown : (es : List Event) → ShutsDown es (run es up)
unfolding run step
run-ShutsDown [] = (refl, refl, refl, refl, refl, refl, refl)
run-ShutsDown (signal ∷ es) =
    let c = run-Closes false false false es in
    (
      omega (arith, c.0),
      omega (arith, c.1),
      omega (arith, c.2),
      omega (arith, c.3),
      omega (arith, c.4),
      c.5,
      c.6,
    )
run-ShutsDown (agent_stopped ∷ es) = run-ShutsDown es
run-ShutsDown (web_closed ∷ es) = run-ShutsDown es
run-ShutsDown (rf_closed ∷ es) = run-ShutsDown es
