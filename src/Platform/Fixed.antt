-- ===== src/Platform/Fixed.antt =====
-- A `double` to run the model on: whole thousandths, with negation and subtraction stopped at 0.
use transfer_queue.Prelude.{ℕ, ◌+◌, ◌-◌, ◌*◌, ◌/◌, ◌^◌, ltb, leb}
use transfer_queue.Platform.{Double}

abbrev pub fixed : Double ℕ
fixed = record {
  decimal = λ m s. m * 1000 / 10 ^ s;
  of_uint = λ n. n * 1000;
  to_uint = λ x. x / 1000;
  neg = λ x. x;
  add = λ x y. x + y;
  sub = λ x y. x - y;
  mul = λ x y. x * y / 1000;
  div = λ x y. x * 1000 / y;
  log = λ x. x;
  exp = λ x. x;
  pow = λ x y. x;
  le = leb;
  lt = ltb;
}
