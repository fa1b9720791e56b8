-- ===== src/Listen.antt =====
-- crates/pg_web_ext/src/listen_router.rs: `ListenRouter` and what `run_listen_loop` does with the
-- notifications of one connection. tokio's broadcast channels are a parameter; the mutex makes each
-- operation one step.
pub mod Reload
use pg_web.Common.{
  ℕ, Bool, true, false, List, [], ◌∷◌, Option, none, some, if◌then◌else◌, Text, codes, same, map,
}
use pg_web.Common.Table.{find, upsert}
use pg_web.Backend.{Backend}
use pg_web.Cache.{Worker, invalidate}

-- `tokio::sync::broadcast`: a sender with what its receivers hold.
pub record Broadcast : Type 1 where
  pub Sender : Type 0
  pub Receiver : Type 0
  pub channel : Sender
  pub subscribe : Sender → Receiver × Sender
  -- the number of receivers, or an error without one
  pub send : Text → Sender → Option ℕ × Sender

module _ (lib : Broadcast) where
  -- `channels` of `ListenRouter`
  abbrev pub ListenRouter : Type 0
  ListenRouter = List (Text × lib.Sender)

  -- `or_insert_with(…)`
  abbrev pub sender_or_new : Option lib.Sender → lib.Sender
  sender_or_new none = lib.channel
  sender_or_new (some tx) = tx

  unfoldable pub subscribe : Text → ListenRouter → lib.Receiver × ListenRouter
  subscribe channel r =
      let (rx, tx) = lib.subscribe (sender_or_new (find same channel r)) in
      (rx, upsert same channel tx r)

  abbrev pub or_zero : Option ℕ → ℕ
  or_zero none = 0
  or_zero (some n) = n

  abbrev pub publish_to : Text → Text → ListenRouter → Option lib.Sender → ℕ × ListenRouter
  publish_to channel payload r none = (0, r)
  publish_to channel payload r (some tx) =
      let (sent, after) = lib.send payload tx in (or_zero sent, upsert same channel after r)

  unfoldable pub publish : Text → Text → ListenRouter → ℕ × ListenRouter
  publish channel payload r = publish_to channel payload r (find same channel r)

  unfoldable pub registered_channels : ListenRouter → List Text
  registered_channels r = map (λ c. c.0) r

  unfoldable pub preregister : Text → ListenRouter → ListenRouter
  preregister channel r = upsert same channel (sender_or_new (find same channel r)) r

  -- The router and the worker, whose cache the loop drops.
  abbrev pub Listening : Type 0 → Type 0 → Type 0
  Listening Db Tera = ListenRouter × Worker Db Tera

  -- The body of the loop over the notifications of a connection.
  unfoldable pub on_notification :
      {Db Tera : Type 0} → Backend Db Tera → Text × Text → Listening Db Tera → Listening Db Tera
  unfolding publish
  on_notification b (channel, payload) (r, w) =
      let (delivered, after) = publish channel payload r in
      (after, if same channel (codes "pgweb_reload") then invalidate b w else w)

  unfoldable pub drain :
      {Db Tera : Type 0}
      → Backend Db Tera
      → List (Text × Text)
      → Listening Db Tera
      → Listening Db Tera
  unfolding on_notification
  drain b [] s = s
  drain b (n ∷ ns) s = drain b ns (on_notification b n s)
