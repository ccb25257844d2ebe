-- ===== src/Pools/Checks.antt =====
-- The pools at concrete runs, with buffers that are their length and capacity.
use ferrotunnel.Base.{ℕ, ◌+◌, ◌≤◌, max, ◌≡◌, refl, arith, List, [], ◌∷◌, none, some}
use ferrotunnel.Pools.{
  Buffers, BytesPoolConfig, load_config, acquire_bytes, ObjectPool, release_object, drop_object,
  wrap, cleared,
}

abbrev Sized : Type 0
Sized = ℕ × ℕ

abbrev grow : Sized → ℕ → Sized
grow (len, capacity) additional = (len, max capacity (len + additional))

grow_len : (b : Sized) (additional : ℕ) → (grow b additional).0 ≡ b.0
grow_len (len, capacity) additional = refl

grow_capacity : (b : Sized) (additional : ℕ) → b.0 + additional ≤ (grow b additional).1
grow_capacity (len, capacity) additional = ground arith

same_capacity : (n : ℕ) → n ≤ n
same_capacity n = ground arith

abbrev sized : Buffers Sized
sized = record {
  with_capacity = λ n. (0, n);
  len = λ b. b.0;
  capacity = λ b. b.1;
  clear = λ b. (0, b.1);
  reserve = grow;
  len-with_capacity = λ n. refl;
  capacity-with_capacity = same_capacity;
  len-clear = λ b. refl;
  capacity-clear = λ b. refl;
  len-reserve = grow_len;
  capacity-reserve = grow_capacity;
}

abbrev config : BytesPoolConfig
config = record { max_pool_size = 2; max_pooled_capacity = 65536; default_buffer_capacity = 4096 }

default_config :
    load_config none (some 0) (some 512)
    ≡ record { max_pool_size = 32; max_pooled_capacity = 65536; default_buffer_capacity = 512 }
unfolding load_config
default_config = refl

-- A reused buffer of 4096 bytes stays as it is when 5000 are asked for.
reused_too_short : acquire_bytes sized config ((7, 4096) ∷ []) 5000 ≡ ((0, 4096), [])
unfolding acquire_bytes
reused_too_short = refl

abbrev queue_two : ObjectPool (List ℕ)
queue_two = record { queue = []; capacity = 2 }

abbrev given_back : ObjectPool (List ℕ)
given_back = drop_object cleared (release_object cleared queue_two (1 ∷ [])) (wrap (2 ∷ 3 ∷ []))

given_back_cleared : given_back ≡ record { queue = [] ∷ [] ∷ []; capacity = 2 }
unfolding release_object drop_object
given_back_cleared = refl
