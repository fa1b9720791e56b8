-- ===== src/Tests/Dev.antt =====
-- A batch of the dev loop whose push fails, handled twice.
use pg_web.Common.{ℕ, ◌≡◌, refl, true, false, [], ◌∷◌, none, some, codes}
use pg_web.Common.Result.{ok}
use pg_web.Dev.{WatchPath, Event, DevWorld, handle_batch}
use pg_web.Dev.Batches.{handle_batch-again}

abbrev saved_style : WatchPath
saved_style = record {
  path = codes "/app/public/site.css";
  file_name = some (codes "site.css");
  rel = some (codes "public" ∷ codes "site.css" ∷ []);
}

abbrev one_save : Event
one_save = record { is_removal = false; paths = saved_style ∷ [] }

-- The database counts the pushes, which all fail.
abbrev failing_world : DevWorld ℕ
failing_world = record {
  read = λ path. ok (1 ∷ 2 ∷ []);
  read_to_string = λ path. ok (codes "a");
  blake3 = λ content. content;
  connect = λ db. none;
  preflight = λ sql db. none;
  push_app = λ db. (some (codes "refused"), db);
  notify_livereload = λ kind db. db;
}

handle_batch-again_example :
    handle_batch failing_world
      (one_save ∷ [])
      true
      (handle_batch failing_world (one_save ∷ []) true [] 0).1
      1
    ≡ ((ok tt, 1), (handle_batch failing_world (one_save ∷ []) true [] 0).1)
handle_batch-again_example =
    handle_batch-again failing_world (one_save ∷ []) true [] 0 1
      ((refl, ((1 ∷ 2 ∷ [], refl), tt)), tt)
