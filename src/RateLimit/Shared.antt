-- ===== src/RateLimit/Shared.antt =====
-- `SharedCounters` of echocorn/ratelimit.py: the windows of every worker, in one table of slots. A
-- slot is the record that `struct` packs, with the ring of timestamps that follows it.
pub mod Ring
pub mod Decision
pub mod Equal
use echocorn.Base.{
  ℕ, zero, suc, ◌+◌, ◌-◌, ◌*◌, ◌/◌, ◌%◌, max, Bool, true, false, not, Option, none, some, List, [],
  ◌∷◌, ◌++◌, ◌&&◌, ◌||◌, ltb, leb, ◌==◌, length, take, set, get_or, replicate, if◌then◌else◌,
}
use echocorn.Base.Bytes.{Bytes, bytes_eq}
use echocorn.RateLimit.{Limits, slot_size, make_limits, min_slots}
use echocorn.RateLimit.Local
use echocorn.RateLimit.Local.{LocalCounters}

pub record Slot : Type 0 where
  pub length : ℕ
  pub key : Bytes
  pub ban_until : ℕ
  pub burst : ℕ
  pub count : ℕ
  pub oldest : ℕ
  pub ring : List ℕ

-- `16s` pads with zero bytes, and cuts what is longer.
abbrev pub pad_key : Bytes → Bytes
pad_key packed = take 16 (packed ++ replicate 16 0)

abbrev pub read_timestamp : List ℕ → ℕ → ℕ
read_timestamp ring i = get_or ring i 0

-- `while count and timestamp(oldest) <= edge`, for a ring of `size` timestamps
unfoldable pub drop_aged : ℕ → ℕ → ℕ → List ℕ → ℕ → ℕ → ℕ × ℕ
drop_aged size window now ring zero oldest = (0, oldest)
drop_aged size window now ring (suc n) oldest =
    let rest = drop_aged size window now ring n ((oldest + 1) % size) in
    if leb (read_timestamp ring oldest + window) now then rest else (suc n, oldest)

-- the decision on the counted window, from `wait: float | None = None` on
unfoldable pub settle_slot : Limits → ℕ → Slot → Option ℕ × Slot
settle_slot l now s =
    if leb s.count l.requests
    then (none, s)
    else if leb s.count l.peak && ((s.burst == 0) || leb (s.burst + l.window) now)
    then (none, record s { burst = now })
    else if ltb 0 l.ban
    then (some l.ban, record s { ban_until = now + l.ban })
    else (
      if s.count == 0 then some 0 else some (read_timestamp s.ring s.oldest + l.window - now),
      s,
    )

-- a timestamp behind the newest one, unless the ring is full
unfoldable pub append_timestamp : ℕ → ℕ → Slot → Slot
append_timestamp size now s =
    if ltb s.count size
    then (record s { ring = set s.ring ((s.oldest + s.count) % size) now; count = s.count + 1 })
    else s

-- `ban_until and now < ban_until`
unfoldable pub ban_in_force : ℕ → ℕ → Bool
ban_in_force now ban_until = not (ban_until == 0) && ltb now ban_until

-- `if ban_until and now >= ban_until: ban_until = 0.0`
unfoldable pub clear_ban : ℕ → ℕ → ℕ
clear_ban now ban_until = if not (ban_until == 0) && leb ban_until now then 0 else ban_until

-- `_decide`: the slot holds the counters that are passed to it.
unfoldable pub decide : Limits → ℕ → Bytes → Slot → Option ℕ × Slot
unfolding drop_aged append_timestamp settle_slot ban_in_force clear_ban
decide l now packed s =
    if ban_in_force now s.ban_until
    then (some (s.ban_until - now), s)
    else let (count, oldest) = drop_aged (l.peak + 1) l.window now s.ring s.count s.oldest in
      settle_slot l now (
        append_timestamp (l.peak + 1) now (record s {
          length = length packed;
          key = pad_key packed;
          ban_until = clear_ban now s.ban_until;
          count = count;
          oldest = oldest;
        }))
