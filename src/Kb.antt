-- ===== src/Kb.antt =====
-- ker/kb.c: the circular buffer of scan codes, the interrupt that fills it, the lock keys, and
-- `kb_read`. A pointer into `buf` is its offset. Waiting for the controller (`kb_wait`, and the
-- loop of `kbd_write`) has no effect but time and is left out.
pub mod Keymap
pub mod Codes
pub mod Ring
pub mod Locks
mod Tests
use myos_ia.Prelude.{
  ℕ, ◌+◌, ◌-◌, Bool, true, false, ◌||◌, not, ◌&&◌, Option, none, some, List, [], ◌∷◌, ◌++◌, bit_and,
  bit_or, bit_xor, ltb, ◌==◌, if◌then◌else◌, get_or, get_elem?, set, replicate, u8, ◌<<<◌,
}
use myos_ia.Kb.Keymap.{Row, keymap}

abbrev pub kb_buf_size : ℕ
kb_buf_size = 32

abbrev pub capslock_code : ℕ
capslock_code = 0x3a

abbrev pub numlock_code : ℕ
numlock_code = 0x45

abbrev pub scrolllock_code : ℕ
scrolllock_code = 0x46

-- `struct kb_buf_t kb_line` with the static flags, and the bytes written to the controller's ports,
-- last first.
pub record Kb : Type 0 where
  pub buf : List ℕ
  pub head : ℕ
  pub tail : ℕ
  pub count : ℕ
  pub shift : ℕ
  pub capslock : ℕ
  pub numlock : ℕ
  pub scrolllock : ℕ
  pub written : List (ℕ × ℕ)

abbrev pub kbd_data_reg : ℕ
kbd_data_reg = 0x60

abbrev pub kbd_cntl_reg : ℕ
kbd_cntl_reg = 0x64

unfoldable pub kbd_write : ℕ → ℕ → Kb → Kb
kbd_write address byte k = record k { written = (address, byte) ∷ k.written }

-- `send_cmd`
unfoldable pub send_cmd : ℕ → Kb → Kb
unfolding kbd_write
send_cmd c k = kbd_write kbd_cntl_reg c k

-- The assignments to the buffer and the flags in `kb_init`.
abbrev pub init : Kb
init = record {
  buf = replicate 32 0;
  head = 0;
  tail = 0;
  count = 0;
  shift = 0;
  capslock = 0;
  numlock = 0;
  scrolllock = 0;
  written = [];
}

-- The loop of `kbd_int`: each pair is a data byte and the status read after it. The loop goes on
-- while the output buffer is full (bit 0), and keeps the last byte only. `none`: the list is too
-- short, the controller is still sending.
unfoldable pub drain : List (ℕ × ℕ) → Option ℕ
drain [] = none
drain ((byte, status) ∷ rest) =
    let more = drain rest in if bit_and status 0x01 == 0 then some byte else more

-- The release of a lock key, which `kbd_int` skips.
unfoldable pub is_lock_release : ℕ → Bool
is_lock_release code =
    let km : ℕ = bit_and code 0x7f in
    not (bit_and code 0x80 == 0)
    && (km == capslock_code || (km == scrolllock_code || km == numlock_code))

-- `if (kb->count < KB_BUF_SIZE) { *kb->head++ = code; … }`: a full buffer discards the code.
unfoldable pub enqueue : ℕ → Kb → Kb
enqueue code k =
    if ltb k.count kb_buf_size
    then record k {
      buf = set k.buf k.head code;
      head = if k.head + 1 == kb_buf_size then 0 else k.head + 1;
      count = k.count + 1;
    }
    else k

-- `kbd_int` with the byte that its loop leaves in `code`; the loop only reads. The flag says whether
-- it calls `wake_up`.
unfoldable pub kbd_store : ℕ → Kb → Kb × Bool
unfolding send_cmd is_lock_release enqueue
kbd_store code k =
    let k1 = send_cmd 0xad k in
    if is_lock_release code
    then (send_cmd 0xae k1, false)
    else (send_cmd 0xae (enqueue code k1), true)

-- `kbd_int`, with the bytes and the statuses that it reads.
unfoldable pub kbd_int : List (ℕ × ℕ) → Kb → Option (Kb × Bool)
unfolding drain kbd_store
kbd_int reads k = elim (drain reads) [ none ↦ none | some code ↦ some (kbd_store code k) ]

-- `set_leds`
unfoldable pub set_leds : Kb → Kb
unfolding kbd_write
set_leds k =
    let leds : ℕ = bit_or (bit_or k.scrolllock (k.numlock <<< 1)) (k.capslock <<< 2) in
    kbd_write kbd_data_reg leds (kbd_write kbd_data_reg 0xed k)

-- `status_process`
unfoldable pub status_process : ℕ → Kb → Kb
unfolding set_leds
status_process code0 k =
    let status : ℕ = if bit_and code0 0x80 == 0 then 1 else 0 in
    let code : ℕ = bit_and code0 0x7f in
    if code == capslock_code
    then set_leds (record k { capslock = 1 - k.capslock })
    else if code == numlock_code
    then set_leds (record k { numlock = 1 - k.numlock })
    else if code == scrolllock_code
    then set_leds (record k { scrolllock = 1 - k.scrolllock })
    else if code == 0x2a || code == 0x36
    then record k { shift = status }
    else k

-- `map_key`: `none` is a read outside the table.
unfoldable pub map_key : ℕ → Kb → Option ℕ
map_key scode k = elim (get_elem? keymap scode) [
  | none ↦ none
  | some r ↦ some (if bit_xor k.shift k.capslock == 0 then r.plain else r.shifted)
]

-- The part of `kb_read` under the lock: `none` where it sleeps.
unfoldable pub dequeue : Kb → Option (ℕ × Kb)
dequeue k =
    if ltb 0 k.count
    then some (
      get_or k.buf k.tail 0,
      record k { tail = if k.tail + 1 == kb_buf_size then 0 else k.tail + 1; count = k.count - 1 },
    )
    else none

pub data Read : Type 0 where
  sleeps : Read
  outside_table : Read
  char : ℕ → Kb → Read

-- The character for a code that was taken from the buffer.
unfoldable pub translate : ℕ → Kb → Read
unfolding status_process map_key
translate code k0 =
    let k = status_process code k0 in
    if bit_and code 0x80 == 0
    then elim (map_key (bit_and code 0x7f) k) [ none ↦ outside_table | some c ↦ char (u8 c) k ]
    else char 0 k

-- `kb_read`
unfoldable pub kb_read : Kb → Read
unfolding dequeue translate
kb_read k = elim (dequeue k) [ none ↦ sleeps | some (code, k') ↦ translate code k' ]
