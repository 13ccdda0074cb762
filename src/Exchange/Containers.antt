-- ===== src/Exchange/Containers.antt =====
-- Strings, enumerations and lists, over any element that has a codec.
use zbluenet.Base.{
  ℕ, ◌^◌, ◌<◌, ◌≡◌, refl, ap, ◌∙◌, fun_ext, List, [], ◌∷◌, ◌++◌, Option, some, arith, length, All,
  take-append, drop-append, length-append, append_assoc, append-nil,
}
use zbluenet.Exchange.{
  Cursor, Reader, ◌>>=◌, read_string, write_string, read_enum, write_enum, read_items, read_list,
  write_items, write_list,
}
use zbluenet.Exchange.Codec.{put, put-put, IsCodec}
use zbluenet.Exchange.Integers.{encoding32v, length-IsCodec, int32v-IsCodec}

abbrev pub encoding_string : List ℕ → List ℕ
encoding_string s = encoding32v (length s) ++ s

-- WRITE_STRING puts the length and the bytes of a string shorter than 2 ^ 32, or fails for want of
-- room, and READ_STRING takes them back.
pub string-IsCodec : IsCodec (λ s. length s < 2 ^ 32) encoding_string write_string read_string
unfolding read_string write_string
string-IsCodec = record {
  write_lem = λ s c h. rw (length-IsCodec.write_lem (length s) c h) (
      ap (λ k. put (encoding32v (length s)) c >>= k) (fun_ext λ d. ground arith)
      ∙ put-put (encoding32v (length s)) s c);
  read_lem = λ s rest h.
      rw
        (
          append_assoc (encoding32v (length s)) s rest,
          length-IsCodec.read_lem (length s) (s ++ rest) h,
        )
        (ground (
          arith,
          length-append s rest,
          take-append (length s) s rest refl,
          drop-append (length s) s rest refl,
        ));
}

module _ {ℓ} {A : Type ℓ} (of_int : ℕ → A) (to_int : A → ℕ)
    (same : (a : A) → of_int (to_int a) ≡ a) where
  pub enum-IsCodec :
      IsCodec
        (λ a. to_int a < 2 ^ 32)
        (λ a. encoding32v (to_int a))
        (λ a. write_enum (to_int a))
        (read_enum of_int)
  unfolding read_enum write_enum
  enum-IsCodec = record {
    write_lem = λ a c h. int32v-IsCodec.write_lem (to_int a) c h;
    read_lem = λ a rest h. rw (int32v-IsCodec.read_lem (to_int a) rest h, same);
  }

module _ {ℓ} {A : Type ℓ} {Valid : A → Type 0} {encoding : A → List ℕ}
    {write : A → Cursor → Option Cursor} {read : Reader A}
    (codec : IsCodec Valid encoding write read) where
  abbrev pub encoding_items : List A → List ℕ
  encoding_items [] = []
  encoding_items (v ∷ vs) = encoding v ++ encoding_items vs

  abbrev pub encoding_list : List A → List ℕ
  encoding_list vs = encoding32v (length vs) ++ encoding_items vs

  write_items_lem :
      (vs : List A) (c : Cursor) → All Valid vs → write_items write vs c ≡ put (encoding_items vs) c
  unfolding write_items
  write_items_lem [] c h = ground (arith, append-nil c.written)
  write_items_lem (v ∷ vs) c h = rw (codec.write_lem v c h.0) (
      ap (λ k. put (encoding v) c >>= k) (fun_ext λ d. write_items_lem vs d h.1)
      ∙ put-put (encoding v) (encoding_items vs) c)

  read_items_lem :
      (vs : List A) (rest : List ℕ)
      → All Valid vs
      → read_items read (length vs) (encoding_items vs ++ rest) ≡ some (vs, rest)
  unfolding read_items
  read_items_lem [] rest h = refl
  read_items_lem (v ∷ vs) rest h = rw (
    append_assoc (encoding v) (encoding_items vs) rest,
    codec.read_lem v (encoding_items vs ++ rest) h.0,
    read_items_lem vs rest h.1,
  )

  -- WRITE_LIST puts the length and the elements of a list shorter than 2 ^ 32, each by its own
  -- macro, or fails for want of room, and READ_LIST takes them back. It holds for every element
  -- whose macros are such a pair, lists of lists included.
  pub list-IsCodec :
      IsCodec
        (λ vs. (length vs < 2 ^ 32) × All Valid vs)
        encoding_list
        (write_list write)
        (read_list read)
  unfolding write_list read_list
  list-IsCodec = record {
    write_lem = λ vs c h. rw (length-IsCodec.write_lem (length vs) c h.0) (
        ap (λ k. put (encoding32v (length vs)) c >>= k) (fun_ext λ d. write_items_lem vs d h.1)
        ∙ put-put (encoding32v (length vs)) (encoding_items vs) c);
    read_lem = λ vs rest h. rw (
      append_assoc (encoding32v (length vs)) (encoding_items vs) rest,
      length-IsCodec.read_lem (length vs) (encoding_items vs ++ rest) h.0,
      read_items_lem vs rest h.1,
    );
  }
