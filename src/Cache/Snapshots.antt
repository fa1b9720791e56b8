-- ===== src/Cache/Snapshots.antt =====
-- When the snapshot is rebuilt, and what a stale one serves.
use pg_web.Common.{◌≡◌, refl, some, arith}
use pg_web.Backend.{Backend}
use pg_web.Cache.{Worker, build_snapshot, get_snapshot, invalidate}

module _ {Db Tera : Type 0} (b : Backend Db Tera) where
  -- After `get_snapshot` the worker holds the snapshot that was returned, its database and timer are
  -- as they were, and a second call returns the same snapshot and changes nothing.
  pub get_snapshot_twice :
      (w : Worker Db Tera)
      → ((get_snapshot b w).1.snapshot ≡ some (get_snapshot b w).0)
        × ((get_snapshot b w).1.db ≡ w.db)
        × ((get_snapshot b w).1.timer_active ≡ w.timer_active)
        × (get_snapshot b (get_snapshot b w).1 ≡ get_snapshot b w)
  unfolding get_snapshot
  get_snapshot_twice w = (ground arith, ground arith, ground arith, ground arith)

  -- However the database has changed since the snapshot was built, the next request after a reload
  -- notification reads a snapshot of the present database.
  pub get_snapshot-invalidate :
      (w : Worker Db Tera) → (get_snapshot b (invalidate b w)).0 ≡ build_snapshot b w.db
  unfolding get_snapshot invalidate
  get_snapshot-invalidate w = refl
