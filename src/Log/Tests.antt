-- ===== src/Log/Tests.antt =====
-- A run of the log of src/grvy_classes.cpp.
use grvy.Base.{List, [], ◌∷◌, ◌++◌, ◌≡◌}
use grvy.Base.Int.{pos}
use grvy.Base.Text.{bytes}
use grvy.Log.Calls.{new_log}
use grvy.Log.Output.{Post, log_post, printf_post, post_all, all_shown, post_all-output}

abbrev three_posts : List Post
three_posts =
    log_post (pos 300) (bytes "started")
    ∷ printf_post (pos 400) (bytes "hidden") (pos 6)
    ∷ printf_post (pos 100) (bytes "error") (pos 5)
    ∷ []

post_all-output_example :
    (post_all three_posts new_log).output ≡ new_log.output ++ all_shown new_log three_posts
post_all-output_example = post_all-output three_posts new_log
