-- ===== src/Backend/Players/Laws.antt =====
-- The maps that stand for tables, after a write.
use audio_server.Common.{Option, String, arith, eq_iff, some, ◌≡◌, ◌≢◌}
use audio_server.Backend.Players.{put_at}

pub put_at_self :
    {A : Type 0} (key : String) (value : A) (f : String → Option A)
    → put_at key value f key ≡ some value
unfolding put_at
put_at_self key value f = ground (arith, eq_iff key key)

pub put_at_others :
    {A : Type 0} (key k : String) (value : A) (f : String → Option A)
    → k ≢ key
    → put_at key value f k ≡ f k
unfolding put_at
put_at_others key k value f other = ground (arith, eq_iff k key)
