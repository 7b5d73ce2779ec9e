-- ===== src/Hd.antt =====
-- ker/hd.c: the ring of read requests between `do_read` and the interrupt of the disk, the registers
-- that `do_readwrite` writes, and the capacity. A pointer into `req_buf` is its index. Waiting for
-- the controller has no effect but time and messages and is left out.
pub mod Ring
pub mod Queue
pub mod Registers
pub mod Setup
mod Tests
use myos_ia.Prelude.{
  ℕ, zero, suc, ◌+◌, ◌-◌, ◌*◌, ◌/◌, ◌%◌, ◌^◌, Bool, true, false, ◌||◌, ◌&&◌, not, Option, none,
  some, List, [], ◌∷◌, ◌++◌, bit_and, bit_or, ltb, leb, ◌==◌, if◌then◌else◌, get_or, set, u8, u32,
  sub32, ◌<<<◌, ◌>>>◌,
}

-- What of `struct ide_drive` the requests use.
pub record Drive : Type 0 where
  pub mainid : ℕ
  pub base : ℕ
  pub ctl : ℕ
  pub lba : ℕ

abbrev pub read_type : ℕ
read_type = 2

abbrev pub write_type : ℕ
write_type = 3

abbrev pub buf_size : ℕ
buf_size = 5

-- `struct request`; its drive is always `wini[0]`.
pub record Request : Type 0 where
  pub block : ℕ
  pub count : ℕ
  pub buf : ℕ
  pub waiter : ℕ
  pub type : ℕ

abbrev pub no_request : Request
no_request = record { block = 0; count = 0; buf = 0; waiter = 0; type = 0 }

pub record Hd : Type 0 where
  pub req_buf : List Request
  pub req_head : ℕ
  pub req_tail : ℕ
  pub req_count : ℕ

-- What the driver does to the outside: it refuses a request, starts one on the drive, or copies the
-- data of one and wakes the process that waits for it.
pub data Action : Type 0 where
  refused : Action
  starts : Request → Action
  delivers : Request → Action

-- `++` on a pointer into the ring.
abbrev pub next : ℕ → ℕ
next i = if i + 1 == buf_size then 0 else i + 1

-- `do_request`
unfoldable pub do_request : Hd → List Action
do_request h =
    if ltb 0 h.req_count then starts (get_or h.req_buf h.req_head no_request) ∷ [] else []

-- `do_read`, up to the call of `sleep_on`: `size>>9` sectors from `block` on for the process
-- `current`.
unfoldable pub do_read : ℕ → ℕ → ℕ → ℕ → Hd → List Action × Hd
unfolding do_request
do_read current buf size block h =
    if leb buf_size h.req_count
    then (refused ∷ [], h)
    else (let g : Hd = record h {
      req_buf = set h.req_buf h.req_tail (record {
        block = block;
        count = size >>> 9;
        buf = buf;
        waiter = current;
        type = read_type;
      });
      req_tail = next h.req_tail;
      req_count = h.req_count + 1;
    } in
        (if g.req_count == 1 then do_request g else [], g))

abbrev pub status_busy : ℕ
status_busy = 0x80

abbrev pub status_dtrq : ℕ
status_dtrq = 0x08

-- The loop of `hd_handlerp` over the values of the status register: whether it comes to `ok_read`
-- within `retries` of them.
unfoldable pub poll : ℕ → List ℕ → Bool
poll zero states = false
poll (suc retries) [] = false
poll (suc retries) (state ∷ states) =
    let later = poll retries states in
    if not (bit_and state status_busy == 0)
    then later
    else if bit_and state status_dtrq == 0
    then later
    else true

-- `ok_read`: `none` where `req_count` would become negative.
unfoldable pub ok_read : Hd → Option (List Action × Hd)
unfolding do_request
ok_read h =
    let rq : Request = get_or h.req_buf h.req_head no_request in
    if rq.type == read_type
    then (if h.req_count == 0
        then none
        else (let g : Hd = record h { req_head = next h.req_head; req_count = h.req_count - 1 } in
            some (delivers rq ∷ do_request g, g)))
    else some ([], h)

-- `hd_handlerp`
unfoldable pub hd_handlerp : List ℕ → Hd → Option (List Action × Hd)
unfolding poll ok_read
hd_handlerp states h = if poll 1000 states then ok_read h else some ([], h)

-- `do_readwrite`: the ports and the bytes that it writes there, in order.
unfoldable pub do_readwrite : Drive → Request → List (ℕ × ℕ)
do_readwrite wn rq =
    (wn.base + 0x206, wn.ctl)
    ∷ (wn.base + 2, u8 rq.count)
    ∷ (wn.base + 3, bit_and rq.block 0xff)
    ∷ (wn.base + 4, bit_and (rq.block >>> 8) 0xff)
    ∷ (wn.base + 5, bit_and (rq.block >>> 16) 0xff)
    ∷ (
      wn.base + 6,
      u8 (
          bit_or (bit_or (bit_or 0xa0 (wn.lba <<< 6)) (wn.mainid <<< 4))
            (bit_and (rq.block >>> 24) 0xf)),
    )
    ∷ (if rq.type == read_type
        then (wn.base + 7, 0xc4) ∷ []
        else if rq.type == write_type
        then (wn.base + 7, 0x30) ∷ []
        else [])

-- What of `struct deviceid` the capacity depends on.
pub record DeviceId : Type 0 where
  pub cylinders : ℕ
  pub heads : ℕ
  pub sectors : ℕ
  pub lcylinders : ℕ
  pub method : ℕ
  pub lba_capacity : ℕ

-- `lba_cap_ok`; the subtraction is `unsigned`.
unfoldable pub lba_cap_ok : DeviceId → Bool
lba_cap_ok id =
    let chs_sects : ℕ = u32 (id.cylinders * id.heads * id.sectors) in
    if (id.cylinders == 16383 || (id.cylinders == 4092 && id.lcylinders == 16383))
      && (id.sectors == 63
          && ((id.heads == 15 || id.heads == 16) && leb (16383 * 63 * id.heads) id.lba_capacity))
    then true
    else ltb (sub32 id.lba_capacity chs_sects) (chs_sects / 10)

-- `calc_capacity`
unfoldable pub calc_capacity : DeviceId → ℕ
unfolding lba_cap_ok
calc_capacity d =
    if not (bit_and d.method 2 == 0) && lba_cap_ok d
    then d.lba_capacity
    else u32 (d.cylinders * d.heads * d.sectors)
