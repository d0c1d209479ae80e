-- ===== src/Tests/Texts.antt =====
-- Texts in which a number is written as that many strokes: they satisfy the laws of the codecs.
use Prim.Native.String.{String, [] as nil_text, ◌∷◌ as cons_text}
use Prim.Native.String.compare
use text.Mathlib.Text.{is_eq, ◌==◌ as str_eq}
use dex_server.Prelude.{
  ℕ, zero, suc, ◌-◌, ◌*◌, ◌/◌, ◌%◌, ◌==◌, ◌≡◌, refl, ap, false, if◌then◌else◌, arith,
}
use dex_server.Prelude.Int.{ℤ, pos, negsuc, pos_part}
use dex_server.Codec.{Texts, TextLaws}

abbrev pub strokes : ℕ → String
strokes zero = ""
strokes (suc n) = cons_text "|" (strokes n)

abbrev pub count : String → ℕ
count nil_text = 0
count (cons_text c s) = suc (count s)

count-strokes : (n : ℕ) → count (strokes n) ≡ n
count-strokes zero = refl
count-strokes (suc n) = ap suc (count-strokes n)

-- An odd number of strokes for 0, 1, 2, …, an even one for -1, -2, ….
abbrev pub print : ℤ → String
print (pos n) = strokes (suc (2 * n))
print (negsuc n) = strokes (suc (suc (2 * n)))

abbrev pub read : String → ℤ
read s = if count s % 2 == 1 then pos (count s / 2) else negsuc (count s / 2 - 1)

abbrev pub texts : Texts
texts = record {
  print_int = print;
  to_big_int = read;
  address_hex = strokes;
  hex_to_address = count;
  hash_hex = strokes;
  hex_to_hash = count;
  format_time = strokes;
  parse_time = count;
  is_object_id_hex = λ s. false;
  object_id_hex = λ s. 0;
  to_byte = pos_part;
}

read-print : (z : ℤ) → read (print z) ≡ z
read-print (pos n) = rw (count-strokes (suc (2 * n))) (ground arith)
read-print (negsuc n) = rw (count-strokes (suc (suc (2 * n)))) (ground arith)

print-nonempty : (z : ℤ) → str_eq (print z) "" ≡ false
print-nonempty (pos n) = ap is_eq (compare.cons-nil "|" (strokes (2 * n)))
print-nonempty (negsuc n) = ap is_eq (compare.cons-nil "|" (strokes (suc (2 * n))))

pub texts-TextLaws : TextLaws texts
texts-TextLaws = record {
  int_read = read-print;
  int_printed = print-nonempty;
  address_read = count-strokes;
  hash_read = count-strokes;
  time_read = count-strokes;
  byte_read = λ n h. refl;
}
