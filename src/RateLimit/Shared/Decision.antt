-- ===== src/RateLimit/Shared/Decision.antt =====
-- One slot decides as the window of its client does.
use echocorn.Base.{
  ◌||◌, if-both, ℕ, zero, suc, ◌+◌, ◌-◌, ◌%◌, ◌≤◌, ◌<◌, ◌≡◌, refl, ◌∙◌, Option, none, some, List,
  arith, ltb, leb, ◌==◌, length, if◌then◌else◌, length-set, Bool-cases, inl, inr, ltb→lt, ◌&&◌,
}
use echocorn.RateLimit.{Limits}
use echocorn.RateLimit.Client.{Client, burst_free, room_in, push, judge}
use echocorn.RateLimit.Shared.{Slot, read_timestamp, append_timestamp, settle_slot}
use echocorn.RateLimit.Shared.Ring.{read_ring, length-read_ring, read_ring-append}

-- Zero stands for "none" in a slot.
abbrev pub nonzero : ℕ → Option ℕ
nonzero zero = none
nonzero (suc n) = some (suc n)

abbrev pub slot_view : ℕ → Slot → Client
slot_view size s = record {
  hits = read_ring size s.ring s.count s.oldest;
  burst = nonzero s.burst;
  ban = nonzero s.ban_until;
}

-- A slot of a table whose rings have `size` timestamps.
pub record IsSlot (size : ℕ) (s : Slot) : Type 0 where
  pub whole : length s.ring ≡ size
  pub inside : s.oldest < size
  pub fits : s.count ≤ size

module _ (size now : ℕ) (s : Slot) (h : IsSlot size s) where
  pub append-IsSlot : IsSlot size (append_timestamp size now s)
  unfolding append_timestamp
  append-IsSlot = elim (Bool-cases (ltb s.count size)) [
    | inl room ↦ rw room (record {
      whole = length-set s.ring ((s.oldest + s.count) % size) now ∙ h.whole;
      inside = h.inside;
      fits = omega (arith, ltb→lt s.count size room);
    })
    | inr full ↦ rw full h
  ]

  pub append-push :
      (peak : ℕ)
      → size ≡ peak + 1
      → slot_view size (append_timestamp size now s)
        ≡ record (slot_view size s) { hits = push peak now (slot_view size s).hits }
  unfolding append_timestamp push
  append-push peak e =
      let hits = read_ring size s.ring s.count s.oldest in
      let count : length hits ≡ s.count = length-read_ring size s.ring s.count s.oldest in
      elim (Bool-cases (ltb s.count size)) [
        | inl room ↦
            let r = ltb→lt s.count size room in
            let added = read_ring-append size s.ring s.count s.oldest now h.whole h.inside r in
            let next : s.count + 1 ≡ suc s.count = omega arith in
            rw (count, ← e, room) (rw (next, added))
        | inr full ↦ rw (count, ← e, full)
      ]

burst-free :
    (window now burst : ℕ)
    → ((burst == 0) || leb (burst + window) now) ≡ burst_free window now (nonzero burst)
unfolding burst_free
burst-free window now zero = refl
burst-free window now (suc b) = ground arith

wait-room :
    (size window now : ℕ) (ring : List ℕ) (count oldest : ℕ)
    → (if count == 0 then some 0 else some (read_timestamp ring oldest + window - now))
      ≡ some (room_in window now (read_ring size ring count oldest))
unfolding room_in read_ring
wait-room size window now ring zero oldest = refl
wait-room size window now ring (suc n) oldest = ground arith

pub nonzero-pos : (n : ℕ) → 0 < n → nonzero n ≡ some n
nonzero-pos zero h = absurd (omega arith)
nonzero-pos (suc n) h = refl

module _ (l : Limits) (now : ℕ) (s : Slot) where
  pub settle_slot-judge :
      0 < now
      → IsSlot (l.peak + 1) s
      → ((settle_slot l now s).0 ≡ (judge l now (slot_view (l.peak + 1) s)).0)
        × (slot_view (l.peak + 1) (settle_slot l now s).1
            ≡ (judge l now (slot_view (l.peak + 1) s)).1)
  unfolding settle_slot judge
  settle_slot-judge pos h =
      let hits = read_ring (l.peak + 1) s.ring s.count s.oldest in
      let count : length hits ≡ s.count = length-read_ring (l.peak + 1) s.ring s.count s.oldest in
      rw (count, ← burst-free l.window now s.burst)
        (elim (Bool-cases (leb s.count l.requests)) [
          | inl within ↦ rw within (refl, refl)
          | inr beyond ↦
              elim (Bool-cases
                (leb s.count l.peak && ((s.burst == 0) || leb (s.burst + l.window) now))) [
                  | inl spike ↦ rw (beyond, spike) (rw (nonzero-pos now pos) (refl, refl))
                  | inr refused ↦ elim (Bool-cases (ltb 0 l.ban)) [
                    | inl bans ↦
                        rw (beyond, refused, bans)
                          (rw (nonzero-pos (now + l.ban) (omega arith)) (refl, refl))
                    | inr open_ban ↦
                        rw (beyond, refused, open_ban)
                          (wait-room (l.peak + 1) l.window now s.ring s.count s.oldest, refl)
                  ]
                ]
        ])

  pub settle_slot-IsSlot : IsSlot (l.peak + 1) s → IsSlot (l.peak + 1) (settle_slot l now s).1
  unfolding settle_slot
  settle_slot-IsSlot h =
      let kept = λ (r : Option ℕ × Slot). IsSlot (l.peak + 1) r.1 in
      if-both kept (leb s.count l.requests) h (
        if-both kept (leb s.count l.peak && ((s.burst == 0) || leb (s.burst + l.window) now))
          (record { whole = h.whole; inside = h.inside; fits = h.fits })
          (if-both kept (ltb 0 l.ban) (record { whole = h.whole; inside = h.inside; fits = h.fits })
            h))
