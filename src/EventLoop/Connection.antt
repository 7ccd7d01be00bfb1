-- ===== src/EventLoop/Connection.antt =====
-- `handle_io` of src/event_loop.rs: one connection's messages, passed on to the loop.
use cache_action.Base.{
  ℕ, ◌+◌, ◌<◌, ◌≡◌, refl, ap, List, [], ◌∷◌, map, Option, none, some, ok, err, arith,
}
use cache_action.Io.{ReadEvent, IsStream, contents, failure, weight}
use cache_action.Protocol.{Message, push_store_path, stop_daemon}
use cache_action.Protocol.Receiver.{Item, new, receive_all}
use cache_action.Protocol.Receiver.Decode.{decode}
use cache_action.Protocol.Receiver.Refines.{receive_all-decode}
use cache_action.Protocol.RoundTrip.{AllSendable, until_stop, receive_all-encoding}
use cache_action.Protocol.Sender.Delivery.{encoding}
use cache_action.EventLoop.{Context, push_store_path as event_push, stop, Received}

module _ (ctx : Context) where
  open ctx use {crates, StorePath, ConnectionWriter}

  -- What is sent for the items that the receiver gives, up to a stop.
  unfoldable pub forward : ConnectionWriter → List (Item crates) → List (Received ctx)
  forward writer [] = []
  forward writer (ok (push_store_path p) ∷ items) = ok (event_push p) ∷ forward writer items
  forward writer (ok stop_daemon ∷ items) = ok (stop writer) ∷ []
  forward writer (err e ∷ items) = err e ∷ forward writer items

  -- The whole task, over what the polls of the connection's reading half find.
  unfoldable pub handle_io : ℕ → ConnectionWriter → List ReadEvent → Option (List (Received ctx))
  unfolding forward
  handle_io fuel writer events = elim (receive_all crates fuel (new events)) [
    | none ↦ none
    | some items ↦ some (forward writer items)
  ]

  -- The items to the first stop, and that.
  abbrev pub upto_stop : List (Item crates) → List (Item crates)
  upto_stop [] = []
  upto_stop (ok stop_daemon ∷ items) = ok stop_daemon ∷ []
  upto_stop (ok (push_store_path p) ∷ items) = ok (push_store_path p) ∷ upto_stop items
  upto_stop (err e ∷ items) = err e ∷ upto_stop items

  -- What an item is for the loop.
  abbrev pub event_of : ConnectionWriter → Item crates → Received ctx
  event_of writer (ok (push_store_path p)) = ok (event_push p)
  event_of writer (ok stop_daemon) = ok (stop writer)
  event_of writer (err e) = err e

  forward-map :
      (writer : ConnectionWriter) (items : List (Item crates))
      → forward writer items ≡ map (event_of writer) (upto_stop items)
  unfolding forward
  forward-map writer [] = refl
  forward-map writer (ok (push_store_path p) ∷ items) =
      ap (◌∷◌ (ok (event_push p))) (forward-map writer items)
  forward-map writer (ok stop_daemon ∷ items) = refl
  forward-map writer (err e ∷ items) = ap (◌∷◌ (err e)) (forward-map writer items)

  -- Whatever a connection sends, its task ends, and has passed on what the bytes say in the wire format
  -- up to the first stop: each push and each error in order, and the stop with the connection's writer.
  pub handle_io-decode :
      (writer : ConnectionWriter) (events : List ReadEvent) (fuel : ℕ)
      → IsStream events
      → weight events + 1 < fuel
      → handle_io fuel writer events
        ≡ some (
            map (event_of writer) (upto_stop (decode crates [] (contents events) (failure events))))
  unfolding handle_io
  handle_io-decode writer events fuel stream k = ground (
    arith,
    receive_all-decode crates events fuel stream k,
    forward-map writer (decode crates [] (contents events) (failure events)),
  )

  -- The events that a client's messages mean, to the first stop.
  abbrev pub events_of : ConnectionWriter → List (Message StorePath) → List (Received ctx)
  events_of writer [] = []
  events_of writer (push_store_path p ∷ ms) = ok (event_push p) ∷ events_of writer ms
  events_of writer (stop_daemon ∷ ms) = ok (stop writer) ∷ []

  forward-until_stop :
      (writer : ConnectionWriter) (ms : List (Message StorePath))
      → forward writer (until_stop crates ms) ≡ events_of writer ms
  unfolding forward
  forward-until_stop writer [] = refl
  forward-until_stop writer (push_store_path p ∷ ms) =
      ap (◌∷◌ (ok (event_push p))) (forward-until_stop writer ms)
  forward-until_stop writer (stop_daemon ∷ ms) = refl

  -- What a client sends reaches the loop: each push as its event, in order, and the first stop with
  -- the connection's own writer; nothing after a stop does.
  pub handle_io-encoding :
      (ms : List (Message StorePath)) (writer : ConnectionWriter) (events : List ReadEvent)
      (fuel : ℕ)
      → AllSendable crates ms
      → IsStream events
      → contents events ≡ encoding crates ms
      → failure events ≡ none
      → weight events + 1 < fuel
      → handle_io fuel writer events ≡ some (events_of writer ms)
  unfolding handle_io
  handle_io-encoding ms writer events fuel h stream sent no_failure k = ground (
    arith,
    receive_all-encoding crates ms events fuel h stream sent no_failure k,
    forward-until_stop writer ms,
  )
