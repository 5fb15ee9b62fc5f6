-- ===== src/Queue/ArgsText.antt =====
-- `msg_queue::set_args` and `get_args` of src/common/queue.cpp: a map printed as "k=v&k2=v2", and read
-- back.
use mq_work.Common.{
  ℕ, zero, suc, ◌+◌, ◌<◌, ◌≡◌, refl, ◌∙◌, true, none, some, [], ◌∷◌, ◌++◌, arith, length,
  length-append,
}
use mq_work.Common.Text.{Text, split_at, lacks, split_at-append, split_at-lacks, lacks-append}
use mq_work.Common.Dict.{put, put_all, put_all-nil, DistinctKeys}
use mq_work.Proto.{Args}
use mq_work.Queue.{MsgQueue}

-- One "key=value"; a text with no `=` is passed over.
unfoldable pub add_pair : Args → Text → Args
add_pair args pair =
    let (key, eq) = split_at b'=' pair in elim eq [ none ↦ args | some val ↦ put key val args ]

unfoldable pub set_args_loop : ℕ → Args → Text → Args
unfolding add_pair
set_args_loop zero args str_args = args
set_args_loop (suc fuel) args [] = args
set_args_loop (suc fuel) args (c ∷ s) =
    let (pair, pos) = split_at b'&' (c ∷ s) in
    let args' = add_pair args pair in
    elim pos [ none ↦ args' | some rest ↦ set_args_loop fuel args' rest ]

unfoldable pub set_args : Text → MsgQueue → MsgQueue
unfolding set_args_loop
set_args str_args q = record q { args = set_args_loop (suc (length str_args)) q.args str_args }

unfoldable pub print_args : Args → Text
print_args [] = []
print_args ((k, v) ∷ []) = k ++ (b'=' ∷ v)
print_args ((k, v) ∷ e ∷ m) = (k ++ (b'=' ∷ v)) ++ (b'&' ∷ print_args (e ∷ m))

unfoldable pub get_args : MsgQueue → Text
unfolding print_args
get_args q = print_args q.args

-- No key holds `=` or `&`, and no value holds `&`.
abbrev pub IsPrintable : Args → Type 0
IsPrintable [] = Unit {0}
IsPrintable ((k, v) ∷ m) =
    (lacks b'=' k ≡ true) × (lacks b'&' k ≡ true) × (lacks b'&' v ≡ true) × IsPrintable m

add_pair-print :
    (k v : Text) (acc : Args) → lacks b'=' k ≡ true → add_pair acc (k ++ (b'=' ∷ v)) ≡ put k v acc
unfolding add_pair
add_pair-print k v acc h = ground (arith, split_at-append b'=' k v h)

lacks-pair :
    (k v : Text) → lacks b'&' k ≡ true → lacks b'&' v ≡ true → lacks b'&' (k ++ (b'=' ∷ v)) ≡ true
lacks-pair k v h g = lacks-append b'&' k (b'=' ∷ v) h (unfold lacks in g)

length-pair : (k v : Text) → (n : ℕ) × (length (k ++ (b'=' ∷ v)) ≡ suc n)
length-pair k v = (length k + length v, omega (arith, length-append {0} k (b'=' ∷ v)))

-- A round of the loop on a text that is not empty, by what stands before the first `&`.
round_some :
    (fuel : ℕ) (acc : Args) (p rest : Text)
    → lacks b'&' p ≡ true
    → 0 < length p
    → set_args_loop (suc fuel) acc (p ++ (b'&' ∷ rest)) ≡ set_args_loop fuel (add_pair acc p) rest
unfolding set_args_loop
round_some fuel acc [] rest h n = absurd (omega arith)
round_some fuel acc (c ∷ p) rest h n = ground (arith, split_at-append b'&' (c ∷ p) rest h)

round_none :
    (fuel : ℕ) (acc : Args) (p : Text)
    → lacks b'&' p ≡ true
    → 0 < length p
    → set_args_loop (suc fuel) acc p ≡ add_pair acc p
unfolding set_args_loop
round_none fuel acc [] h n = absurd (omega arith)
round_none fuel acc (c ∷ p) h n = ground (arith, split_at-lacks b'&' (c ∷ p) h)

loop-print :
    (fuel : ℕ) (acc m : Args)
    → length (print_args m) < fuel
    → IsPrintable m
    → set_args_loop fuel acc (print_args m) ≡ put_all acc m
unfolding print_args put_all
loop-print zero acc m h c = elim h [ ]
loop-print (suc fuel) acc [] h c = unfold set_args_loop in refl
loop-print (suc fuel) acc ((k, v) ∷ []) h c =
    round_none fuel acc (k ++ (b'=' ∷ v)) (lacks-pair k v c.1 c.2)
      (omega (arith, length-append {0} k (b'=' ∷ v)))
    ∙ add_pair-print k v acc c.0
loop-print (suc fuel) acc ((k, v) ∷ e ∷ m) h c =
    round_some fuel acc (k ++ (b'=' ∷ v)) (print_args (e ∷ m)) (lacks-pair k v c.1 c.2)
      (omega (arith, length-append {0} k (b'=' ∷ v)))
    ∙ rw (add_pair-print k v acc c.0) (
        loop-print fuel (put k v acc) (e ∷ m)
          (omega (arith, length-append {0} (k ++ (b'=' ∷ v)) (b'&' ∷ print_args (e ∷ m)))) c.3)

-- Reading back what `get_args` prints gives the arguments themselves, if no key holds `=` or `&`
-- and no value holds `&`. The queue that reads starts with no arguments.
pub set_args-get_args :
    (q r : MsgQueue)
    → IsPrintable q.args
    → DistinctKeys q.args
    → r.args ≡ []
    → (set_args (get_args q) r).args ≡ q.args
unfolding set_args get_args
set_args-get_args q r p d e =
    rw e (
      loop-print (suc (length (print_args q.args))) [] q.args (omega arith) p
      ∙ put_all-nil q.args d)
