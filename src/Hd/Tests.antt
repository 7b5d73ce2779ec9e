-- ===== src/Hd/Tests.antt =====
-- The request ring around its end, and the registers of the first drive.
use myos_ia.Prelude.{◌≡◌, refl, some, [], ◌∷◌, arith, replicate, set}
use myos_ia.Hd.{
  Drive, Request, no_request, Hd, delivers, do_read, ok_read, hd_handlerp, calc_capacity,
}
use myos_ia.Hd.Ring.{IsValid, contents}
use myos_ia.Hd.Queue.{request, submit, complete, Completed, do_read-submit, ok_read-complete}

abbrev first : Request
first = request 1 0x5000 1024 63

-- One request, at the last index.
abbrev one : Hd
one = record {
  req_buf = set (replicate 5 no_request) 4 first;
  req_head = 4;
  req_tail = 0;
  req_count = 1;
}

one-IsValid : IsValid one
one-IsValid = ground arith

do_read-submit_example :
    let (actions, g) = do_read 2 0x6000 512 100 one in
    let (expected, q) = submit (request 2 0x6000 512 100) (contents one) in
    (actions ≡ expected) × (contents g ≡ q) × IsValid g
do_read-submit_example = do_read-submit 2 0x6000 512 100 one one-IsValid

ok_read-complete_example : Completed (ok_read one) (complete (contents one))
ok_read-complete_example = ok_read-complete one one-IsValid (ground arith)

delivered :
    hd_handlerp (0x80 ∷ 0x58 ∷ []) one
    ≡ some (delivers first ∷ [], record one { req_head = 0; req_count = 0 })
unfolding hd_handlerp
delivered = refl

abbrev drive : Drive
drive = record { mainid = 0; base = 0x1f0; ctl = 8; lba = 1 }

chs_capacity :
    calc_capacity (record {
      cylinders = 306;
      heads = 4;
      sectors = 17;
      lcylinders = 306;
      method = 0;
      lba_capacity = 0;
    })
    ≡ 20808
unfolding calc_capacity
chs_capacity = refl
