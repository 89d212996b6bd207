-- ===== src/Server/Start/Limits.antt =====
-- The limit that `main` gives to its pool of threads, and the port that it binds.
use secure_person2person_p2p.Base.{
  ℕ, ◌≤◌, ◌≡◌, leb, if◌then◌else◌, ℤ, pos, negsuc, int_max, InInt, arith,
}
use secure_person2person_p2p.Server.Start.{to_unsigned, to_int, limit_of}

-- The limit that the comparison as `unsigned` amounts to.
abbrev pub clamp : ℕ → ℤ → ℤ
clamp num_of_threads (pos n) = if leb n num_of_threads then pos n else pos num_of_threads
clamp num_of_threads (negsuc n) = pos num_of_threads

-- Where the number of threads fits an `int`: an `int` from 0 to the number of threads is taken as the
-- limit, and the number of threads is the limit for any other `int`, also for a negative one.
pub limit_of-clamp :
    (num_of_threads : ℕ) (n : ℤ)
    → num_of_threads ≤ int_max
    → InInt n
    → limit_of num_of_threads n ≡ clamp num_of_threads n
unfolding limit_of to_unsigned to_int
limit_of-clamp num_of_threads (pos n) h i = ground arith
limit_of-clamp num_of_threads (negsuc n) h i = ground arith
