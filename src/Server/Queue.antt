-- ===== src/Server/Queue.antt =====
-- `PriorityQueue` of deep_inc/server/queue.h, each method under the queue's mutex.
use deep_inc.Base.{
  ℕ, zero, suc, ◌+◌, ◌-◌, ◌*◌, ◌/◌, ◌%◌, ◌^◌, ltb, ◌==◌, ◌&&◌, Bool, length, take, set, get_or,
  if◌then◌else◌, Option, none, some, List, [], ◌∷◌, ◌++◌, update,
}
use deep_inc.Server.State.{Message, PriorityQueue}

unfoldable pub create : Bool → PriorityQueue
create is_schedule = record { queue = []; push_cnt = λ _. 0; enable_schedule = is_schedule }

-- Whether `a` is to be served after `b`.
unfoldable pub compare_priority : PriorityQueue → Message → Message → Bool
compare_priority q a b =
    if q.push_cnt a.key == q.push_cnt b.key
    then ltb b.id a.id
    else ltb (q.push_cnt b.key) (q.push_cnt a.key)

-- The array of the heap under the hands of the standard library (libstdc++): `hole` moves up past
-- every parent that is to be served after `m`, down to `top`. Each move halves the index.
unfoldable pub sift_up : PriorityQueue → Message → ℕ → ℕ → ℕ → List Message → List Message
sift_up q m zero hole top ms = set ms hole m
sift_up q m (suc fuel) hole top ms =
    let parent = (hole - 1) / 2 in
    let above = get_or ms parent m in
    if ltb top hole && compare_priority q above m
    then sift_up q m fuel parent top (set ms hole above)
    else set ms hole m

-- `std::push_heap`, for the last message of the list.
unfoldable pub push_heap : PriorityQueue → Message → List Message → List Message
unfolding sift_up
push_heap q m ms = sift_up q m (length ms) (length ms - 1) 0 ms

-- The hole moves down to the greater child, to the bottom of the first `len` messages, and `m`
-- moves up from there.
unfoldable pub sift_down : PriorityQueue → Message → ℕ → ℕ → ℕ → List Message → List Message
unfolding sift_up
sift_down q m zero len hole ms = ms
sift_down q m (suc fuel) len hole ms =
    let right = 2 * (hole + 1) in
    let smaller = compare_priority q (get_or ms right m) (get_or ms (right - 1) m) in
    let child = if smaller then right - 1 else right in
    if ltb hole ((len - 1) / 2)
    then sift_down q m fuel len child (set ms hole (get_or ms child m))
    else if len % 2 == 0 && (hole == (len - 2) / 2)
    then sift_up q m len (right - 1) 0 (set ms hole (get_or ms (right - 1) m))
    else sift_up q m len hole 0 ms

-- `std::pop_heap` and `pop_back` on a list of `first` and the others: the first message leaves, and
-- the last one takes its place. With push counts that have changed the list need not be a heap any
-- more, and the first message need not be the greatest.
unfoldable pub pop_heap : PriorityQueue → List Message → List Message
unfolding sift_down
pop_heap q [] = []
pop_heap q (m ∷ ms) =
    let len = length ms in
    let last = get_or (m ∷ ms) len m in
    if len == 0 then [] else take len (sift_down q last (len + 1) len 0 (m ∷ ms))

unfoldable pub push : PriorityQueue → Message → PriorityQueue
unfolding push_heap
push q m =
    let queue = q.queue ++ m ∷ [] in
    if q.enable_schedule
    then (let counted = record q {
      push_cnt = update q.push_cnt m.key ((q.push_cnt m.key + 1) % 2 ^ 64);
    } in
        record counted { queue = push_heap counted m queue })
    else record q { queue = queue }

-- `WaitAndPop`, without the wait: `none` while the queue is empty. A scheduled queue gives the front
-- of its heap; any other queue gives its oldest message.
unfoldable pub wait_and_pop : PriorityQueue → Option (Message × PriorityQueue)
unfolding pop_heap
wait_and_pop q = elim q.queue [
  | [] ↦ none
  | m ∷ ms ↦
      if q.enable_schedule
      then some (m, record q { queue = pop_heap q (m ∷ ms) })
      else some (m, record q { queue = ms })
]

unfoldable pub clear_counter : PriorityQueue → ℕ → PriorityQueue
clear_counter q key =
    if q.enable_schedule then record q { push_cnt = update q.push_cnt key 0 } else q
