-- ===== src/Listen/Reload.antt =====
-- The notifications that drop the worker's cache, and the channels that they do not touch.
use pg_web.Common.{
  ◌≡◌, refl, sym, ◌∙◌, inl, inr, false, List, [], ◌∷◌, Option, none, some, Text, codes, same,
  same_iff, same_refl, any, Bool-cases, or_false, IsIn,
}
use pg_web.Common.Table.{find, find-upsert}
use pg_web.Backend.{Backend}
use pg_web.Cache.{Worker, invalidate, get_snapshot}
use pg_web.Routes.Best.{IsFresh}
use pg_web.Listen.{Broadcast, ListenRouter, publish, publish_to, Listening, on_notification, drain}

abbrev pub reload : Text
reload = codes "pgweb_reload"

module _ (lib : Broadcast) where
  -- Publishing on a channel changes no other channel, and creates none.
  pub publish-find :
      (channel other payload : Text) (r : ListenRouter lib)
      → same channel other ≡ false
      → find same other (publish lib channel payload r).1 ≡ find same other r
  unfolding publish
  publish-find channel other payload r ne = go (find same channel r)
    where
      go :
          (o : Option lib.Sender)
          → find same other (publish_to lib channel payload r o).1 ≡ find same other r
      go none = refl
      go (some tx) = find-upsert same same_iff channel other (lib.send payload tx).1 r ∙ rw ne refl

  module _ {Db Tera : Type 0} (b : Backend Db Tera) where
    on_notification-db :
        (n : Text × Text) (s : Listening lib Db Tera) → (on_notification lib b n s).1.db ≡ s.1.db
    unfolding on_notification invalidate
    on_notification-db (channel, payload) (r, w) = elim (Bool-cases (same channel reload)) [
      | inl it ↦ rw it refl
      | inr other ↦ rw other refl
    ]

    -- The notifications leave the worker's database alone.
    pub drain-db :
        (ns : List (Text × Text)) (s : Listening lib Db Tera) → (drain lib b ns s).1.db ≡ s.1.db
    unfolding drain
    drain-db [] s = refl
    drain-db (n ∷ ns) s = drain-db ns (on_notification lib b n s) ∙ on_notification-db n s

    on_notification-none :
        (n : Text × Text) (s : Listening lib Db Tera)
        → s.1.snapshot ≡ none
        → (on_notification lib b n s).1.snapshot ≡ none
    unfolding on_notification invalidate
    on_notification-none (channel, payload) (r, w) e = elim (Bool-cases (same channel reload)) [
      | inl it ↦ rw it refl
      | inr other ↦ rw other e
    ]

    drain-none :
        (ns : List (Text × Text)) (s : Listening lib Db Tera)
        → s.1.snapshot ≡ none
        → (drain lib b ns s).1.snapshot ≡ none
    unfolding drain
    drain-none [] s e = e
    drain-none (n ∷ ns) s e = drain-none ns (on_notification lib b n s) (on_notification-none n s e)

    on_notification-reload :
        (payload : Text) (s : Listening lib Db Tera)
        → (on_notification lib b (reload, payload) s).1.snapshot ≡ none
    unfolding on_notification invalidate
    on_notification-reload payload (r, w) = rw (same_refl reload) refl

    -- Among the notifications is one of the reload channel: behind them the worker has no snapshot,
    -- whatever it had and whatever stands before and behind it.
    pub drain-reload :
        (ns : List (Text × Text)) (payload : Text) (s : Listening lib Db Tera)
        → IsIn (reload, payload) ns
        → (drain lib b ns s).1.snapshot ≡ none
    unfolding drain
    drain-reload [] payload s i = absurd i
    drain-reload (n ∷ ns) payload s (inl here) =
        drain-none ns (on_notification lib b n s) (rw (sym here) (on_notification-reload payload s))
    drain-reload (n ∷ ns) payload s (inr there) =
        drain-reload ns payload (on_notification lib b n s) there

    -- No notification is of the reload channel: the cached snapshot stays.
    pub drain-snapshot :
        (ns : List (Text × Text)) (s : Listening lib Db Tera)
        → any (λ n. same n.0 reload) ns ≡ false
        → (drain lib b ns s).1.snapshot ≡ s.1.snapshot
    unfolding drain on_notification
    drain-snapshot [] s h = refl
    drain-snapshot ((channel, payload) ∷ ns) (r, w) h =
        let (not_this, later) = or_false (same channel reload) (any (λ n. same n.0 reload) ns) h in
        drain-snapshot ns (on_notification lib b (channel, payload) (r, w)) later ∙ rw not_this refl

    -- A worker without a snapshot reads a fresh one.
    pub none-IsFresh : (w : Worker Db Tera) → w.snapshot ≡ none → IsFresh b w
    unfolding get_snapshot
    none-IsFresh w e = rw e refl
