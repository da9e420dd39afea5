-- ===== src/Rhp/Connection/Settling.antt =====
-- The requests of src/rhp/client.ts: each is settled once.
use pdn_whatspac_client.Base.{
  ℕ, ◌+◌, ◌≤◌, ◌≡◌, refl, ap, ◌∙◌, inr, true, false, Option, none, some, List, [], ◌∷◌, ◌++◌, map,
  Bytes, if◌then◌else◌, arith,
}
use pdn_whatspac_client.Rhp.Envelope.{RhpEnvelope, encode_frame}
use pdn_whatspac_client.Rhp.Connection.{
  Connection, fresh, Effect, rejected, refused, link_closed, delete, on_transport_end, with_id,
  written, request, listen_close, Event, requests, chunk, timeout, transport_end, data_listener,
  close_listener, step, run,
}
use pdn_whatspac_client.Rhp.Connection.Counting.{
  count, issues, settles, settles-append, count-append, count-delete, IsTidy, Balances,
  Balances-nothing, Balances-then,
}
use pdn_whatspac_client.Rhp.Connection.Inbound.{
  if-Balances, listeners-Balances, on_timeout-Balances, on_data-Balances,
}

count-rejected :
    (k : ℕ) (xs ls : List ℕ) → settles k (map rejected xs ++ map link_closed ls) ≡ count k xs
count-rejected k [] [] = refl
count-rejected k [] (l ∷ ls) = count-rejected k [] ls
count-rejected k (x ∷ xs) ls = omega (arith, count-rejected k xs ls)

issues-rejected : (k : ℕ) (xs ls : List ℕ) → issues k (map rejected xs ++ map link_closed ls) ≡ 0
issues-rejected k [] [] = refl
issues-rejected k [] (l ∷ ls) = issues-rejected k [] ls
issues-rejected k (x ∷ xs) ls = issues-rejected k xs ls

pub on_transport_end-Balances :
    (k : ℕ) (c : Connection) → IsTidy k c → Balances k c (on_transport_end c)
unfolding on_transport_end
on_transport_end-Balances k c t =
    let s = count-rejected k c.pending c.close_listeners in
    let i = issues-rejected k c.pending c.close_listeners in
    if-Balances k c c.closed (c, [])
      (
        record c { closed = true; pending = []; data_listeners = []; close_listeners = [] },
        map rejected c.pending ++ map link_closed c.close_listeners,
      )
      (λ y. Balances-nothing k c t)
      (λ n.
        ((omega arith, inr refl), omega arith, omega arith, omega arith, omega arith, omega arith))

written-Balances :
    (k : ℕ) (o : Option Bytes) (c : Connection)
    → IsTidy k c
    → Balances k c (
        written c.next_id o
          (record c { next_id = c.next_id + 1; pending = c.pending ++ c.next_id ∷ [] }))
written-Balances k none c t =
    let e = count-append k c.pending (c.next_id ∷ []) in
    let f = count-delete k c.next_id (c.pending ++ c.next_id ∷ []) in ground (arith, e, f)
written-Balances k (some frame) c t =
    let e = count-append k c.pending (c.next_id ∷ []) in ground (arith, e)

pub request-Balances :
    (k : ℕ) (e : RhpEnvelope) (c : Connection) → IsTidy k c → Balances k c (request e c)
unfolding request
request-Balances k e c t =
    if-Balances k c c.closed (c, refused ∷ [])
      (written c.next_id (encode_frame (with_id c.next_id e))
        (record c { next_id = c.next_id + 1; pending = c.pending ++ c.next_id ∷ [] }))
      (λ y. listeners-Balances k c c (refused ∷ []) t refl refl refl refl)
      (λ n. written-Balances k (encode_frame (with_id c.next_id e)) c t)

listen_close-Balances :
    (k handle : ℕ) (c : Connection) → IsTidy k c → Balances k c (listen_close handle c)
unfolding listen_close
listen_close-Balances k handle c t =
    if-Balances k c c.closed
      (record c { close_listeners = delete handle c.close_listeners }, link_closed handle ∷ [])
      (record c { close_listeners = handle ∷ delete handle c.close_listeners }, [])
      (λ y.
        listeners-Balances k c (record c { close_listeners = delete handle c.close_listeners })
          (link_closed handle ∷ []) t refl refl refl refl)
      (λ n.
        listeners-Balances k c
          (record c { close_listeners = handle ∷ delete handle c.close_listeners }) [] t refl refl
          refl refl)

pub step-Balances : (k : ℕ) (e : Event) (c : Connection) → IsTidy k c → Balances k c (step e c)
unfolding step
step-Balances k (requests e) c t = request-Balances k e c t
step-Balances k (chunk bytes) c t = on_data-Balances k bytes c t
step-Balances k (timeout id) c t = on_timeout-Balances k id c t
step-Balances k transport_end c t = on_transport_end-Balances k c t
step-Balances k (data_listener handle) c t =
    listeners-Balances k c (record c { data_listeners = handle ∷ delete handle c.data_listeners })
      [] t refl refl refl refl
step-Balances k (close_listener handle) c t = listen_close-Balances k handle c t

run-Balances : (k : ℕ) (es : List Event) (c : Connection) → IsTidy k c → Balances k c (run es c)
unfolding run
run-Balances k [] c t = Balances-nothing k c t
run-Balances k (e ∷ es) c t =
    let (d, effects) = step e c in
    let (f, more) = run es d in
    let one = step-Balances k e c t in
    Balances-then k c d f effects more one (run-Balances k es d one.0)

-- Whatever happens on a new connection, no id is issued twice, and an issued request either still
-- waits or has been resolved or rejected, once and not both; none is settled that was not issued.
pub run-settles_once :
    (k : ℕ) (es : List Event)
    → let (c, effects) = run es fresh in
      (issues k effects ≤ 1) × (count k c.pending + settles k effects ≡ issues k effects)
run-settles_once k es =
    let b = run-Balances k es fresh (omega arith, inr refl) in (b.3, omega (arith, b.1))

-- When the transport of a connection that is still open ends, every request that was ever issued
-- has been settled.
pub transport_end-settles :
    (k : ℕ) (es : List Event)
    → (run es fresh).0.closed ≡ false
    → let (c, effects) = run es fresh in
      settles k (effects ++ (on_transport_end c).1) ≡ issues k effects
unfolding on_transport_end
transport_end-settles k es f =
    let (c, effects) = run es fresh in
    let last = map rejected c.pending ++ map link_closed c.close_listeners in
    let ended = record c {
      closed = true;
      pending = [];
      data_listeners = [];
      close_listeners = [];
    } in
    let one = settles-append k effects last in
    let two = count-rejected k c.pending c.close_listeners in
    let three = (run-settles_once k es).1 in
    let shown =
      ap
        (λ b.
          settles k
            (effects ++ (if◌then◌else◌ {A = Connection × List Effect} b (c, []) (ended, last)).1))
        f in
    shown ∙ omega (arith, one, two, three)
