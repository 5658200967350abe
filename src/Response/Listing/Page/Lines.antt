-- ===== src/Response/Listing/Page/Lines.antt =====
-- On the page of a directory and its lines, sent in chunks.
use mathlib.Core.List.{Permᴰ}
use mathlib.Core.List.Permᴰ
use zipring.Prelude.{
  ℕ, true, false, not, if◌then◌else◌, ap, ◌∙◌, subst, ◌+◌, ◌≤◌, ◌≡◌, refl, Bool, List, [], ◌∷◌,
  ◌++◌, length, All, arith, length-append,
}
use zipring.Prelude.Bytes.{Bytes, codes}
use zipring.Fstree.{FsTreeNode, dir, file, Children, nil, cons}
use zipring.Response.Stream.{Writer, Accepts}
use zipring.Response.Listing.Frames.{IsHex}
use zipring.Response.Listing.{index_header}
use zipring.Response.Listing.Chunked.{joined}
use zipring.Response.Listing.Texts.{Fits, Lists, serve_texts-Lists}
use zipring.Response.Listing.Page.{
  index_preamble, top, entry_text, dir_texts, file_texts, entry_texts, serve_index,
}

abbrev pub Short : ℕ → Bytes → Type 0
Short most text = length text ≤ most

entry_text-Fits :
    (url_encode html_escape : Bytes → Bytes) (most : ℕ) (class slash name : Bytes)
    → Short most (entry_text url_encode html_escape class slash name)
    → Fits most (entry_text url_encode html_escape class slash name)
unfolding entry_text
entry_text-Fits url_encode html_escape most class slash name short = (omega arith, short)

-- The line that leads up, but in the root.
abbrev pub lead_up : Bool → Bytes
lead_up is_root = if is_root then [] else codes "<li class=top><a href=\"..\">..</a>\n"

top-eq-lead_up : (is_root : Bool) → top is_root ≡ lead_up is_root
top-eq-lead_up true = refl
top-eq-lead_up false = refl

abbrev pub is_dir : {E : Type 0} → FsTreeNode E → Bool
is_dir (dir _ _ _ _) = true
is_dir (file _ _) = false

module _ (url_encode html_escape : Bytes → Bytes) {E : Type 0} where
  -- The line of an entry: of a directory, the link ends with a slash.
  abbrev pub line : FsTreeNode E → Bytes
  line (dir name _ _ _) =
      codes "<li class=dir><a href=\"./"
      ++ (url_encode name ++ (codes "/\">" ++ (html_escape name ++ codes "</a>\n")))
  line (file name _) =
      codes "<li><a href=\"./"
      ++ (url_encode name ++ (codes "\">" ++ (html_escape name ++ codes "</a>\n")))

  -- A line for each of the entries, in their order.
  abbrev pub lines : Children E → List Bytes
  lines nil = []
  lines (cons entry entries) = line entry ∷ lines entries

  -- The lines of the entries that pass a test, in their order.
  abbrev pub lines_that : (FsTreeNode E → Bool) → Children E → List Bytes
  lines_that test nil = []
  lines_that test (cons entry entries) =
      let others = lines_that test entries in if test entry then line entry ∷ others else others

  abbrev pub dirs_and_files : Children E → List Bytes
  dirs_and_files entries = lines_that is_dir entries ++ lines_that (λ n. not (is_dir n)) entries

  texts-eq-lines_that :
      (entries : Children E)
      → (dir_texts url_encode html_escape entries ≡ lines_that is_dir entries)
        × (file_texts url_encode html_escape entries ≡ lines_that (λ n. not (is_dir n)) entries)
  unfolding dir_texts file_texts entry_text
  texts-eq-lines_that nil = (refl, refl)
  texts-eq-lines_that (cons (dir name cs r i) entries) =
      let (dirs, files) = texts-eq-lines_that entries in
      (ap (λ (ts : List Bytes). line (dir name cs r i) ∷ ts) dirs, files)
  texts-eq-lines_that (cons (file name e) entries) =
      let (dirs, files) = texts-eq-lines_that entries in
      (dirs, ap (λ (ts : List Bytes). line (file name e) ∷ ts) files)

  entry_texts-eq-dirs_and_files :
      (entries : Children E) → entry_texts url_encode html_escape entries ≡ dirs_and_files entries
  entry_texts-eq-dirs_and_files entries =
      let (dirs, files) = texts-eq-lines_that entries in
      ap (λ (ts : List Bytes). ts ++ file_texts url_encode html_escape entries) dirs
      ∙ ap (λ (ts : List Bytes). lines_that is_dir entries ++ ts) files

  lines-dirs_and_files : (entries : Children E) → Permᴰ (lines entries) (dirs_and_files entries)
  lines-dirs_and_files nil = Permᴰ.nil
  lines-dirs_and_files (cons (dir name _ _ _) entries) =
      Permᴰ.cons refl (lines-dirs_and_files entries)
  lines-dirs_and_files (cons (file name e) entries) =
      Permᴰ.trans (Permᴰ.cons refl (lines-dirs_and_files entries)) (
        Permᴰ.symm (
          Permᴰ.middle (line (file name e)) (lines_that is_dir entries)
            (lines_that (λ n. not (is_dir n)) entries)))

  entry_texts-Fits :
      (most : ℕ) (entries : Children E)
      → All (Short most) (lines entries)
      → All (Fits most) (dir_texts url_encode html_escape entries)
        × All (Fits most) (file_texts url_encode html_escape entries)
  unfolding dir_texts file_texts
  entry_texts-Fits most nil short = (tt, tt)
  entry_texts-Fits most (cons (dir name _ _ _) entries) (short, others) =
      let rest = entry_texts-Fits most entries others in
      (
        (
          entry_text-Fits url_encode html_escape most (codes " class=dir") (codes "/") name short,
          rest.0,
        ),
        rest.1,
      )
  entry_texts-Fits most (cons (file name _) entries) (short, others) =
      let rest = entry_texts-Fits most entries others in
      (rest.0, (entry_text-Fits url_encode html_escape most [] [] name short, rest.1))

All-append {ℓ κ} :
    {A : Type ℓ} (P : A → Type κ) (xs ys : List A) → All P xs → All P ys → All P (xs ++ ys)
All-append P [] ys p q = q
All-append P (x ∷ xs) ys (p, ps) q = (p, All-append P xs ys ps q)

module _ (encode_hex : Bytes → Bytes) (hex_len : IsHex encode_hex)
    (url_encode html_escape : Bytes → Bytes) (W : Writer) (accepts : Accepts W) {E : Type 0} where
  -- With two hexadecimal digits for a byte, on a stream that takes its writes, with a buffer that has room
  -- for the header, the preamble or the longest line, and 25 bytes, the listing of a directory does not
  -- fail. It sends the header, and in chunks, none of them empty, the preamble, in a directory that is
  -- not the root a line that leads up, and then the lines of the directories, and behind them those of
  -- the files, each in the order of the entries; they are one line for each entry.
  pub serve_index-Lists :
      (is_root : Bool) (entries : Children E) (buf : Bytes) (s : W.State) (most : ℕ)
      → length index_header + most + 25 ≤ length buf
      → length (index_preamble ++ lead_up is_root) ≤ most
      → All (Short most) (lines url_encode html_escape entries)
      → Lists encode_hex hex_len W accepts buf
          (W.sent s ++ index_header)
          ((index_preamble ++ lead_up is_root)
            ++ joined (dirs_and_files url_encode html_escape entries))
          (serve_index encode_hex url_encode html_escape W is_root entries buf s)
        × Permᴰ
            (lines url_encode html_escape entries)
            (dirs_and_files url_encode html_escape entries)
  unfolding serve_index index_preamble
  serve_index-Lists is_root entries buf s most room short_top short =
      let fit = entry_texts-Fits url_encode html_escape most entries short in
      let same_top = top-eq-lead_up is_root in
      let lists =
        serve_texts-Lists encode_hex hex_len W accepts (index_preamble ++ top is_root)
          (entry_texts url_encode html_escape entries) buf s most room
          (
            (
              (let first = ap length same_top in
                  omega (
                    arith,
                    length-append {0} index_preamble (top is_root),
                    length-append {0} index_preamble (lead_up is_root),
                  )),
              (let first = ap length same_top in
                  omega (
                    arith,
                    length-append {0} index_preamble (top is_root),
                    length-append {0} index_preamble (lead_up is_root),
                  )),
            ),
            All-append (Fits most) (dir_texts url_encode html_escape entries)
                (file_texts url_encode html_escape entries) fit.0 fit.1,
          ) in
      let sends = λ (text : Bytes).
        Lists encode_hex hex_len W accepts buf (W.sent s ++ index_header) text
          (serve_index encode_hex url_encode html_escape W is_root entries buf s) in
      let same =
        ap
          (λ (up : Bytes).
            (index_preamble ++ up) ++ joined (entry_texts url_encode html_escape entries))
          same_top
        ∙ ap (λ (ts : List Bytes). (index_preamble ++ lead_up is_root) ++ joined ts)
            (entry_texts-eq-dirs_and_files url_encode html_escape entries) in
      (subst sends same lists, lines-dirs_and_files url_encode html_escape entries)
