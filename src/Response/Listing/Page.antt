-- ===== src/Response/Listing/Page.antt =====
-- The texts of a directory listing (`serve_index` of src/response/stream.rs, and
-- src/response/index.html). `utf8_percent_encode` on the set of a path's segment, and
-- `v_htmlescape`, are parameters.
pub mod Lines
use zipring.Prelude.{ℕ, Bool, true, false, List, [], ◌∷◌, ◌++◌, Run}
use zipring.Prelude.Bytes.{Bytes, codes}
use zipring.Fstree.{FsTreeNode, dir, file, Children, nil, cons}
use zipring.Response.Stream.{Writer}
use zipring.Response.Listing.{Listing, serve_texts}

-- `INDEX_PREAMBLE`, which is src/response/index.html
unfoldable pub index_preamble : Bytes
index_preamble =
    codes "<!doctype html>\n"
    ++ (codes "<meta charset=\"utf-8\">\n"
        ++ (codes "<style>\n"
            ++ (codes "  body {\n"
                ++ (codes "    max-width: 900px;\n"
                    ++ (codes "    margin: auto;\n"
                        ++ (codes "    line-height: 2;\n"
                            ++ (codes "  }\n"
                                ++ (codes "  ul {\n"
                                    ++ (codes "    list-style: \"\\1f4c4\";\n"
                                        ++ (codes "  }\n"
                                            ++ (codes "  .dir {\n"
                                                ++ (codes "    list-style: \"\\1f4c1\";\n"
                                                    ++ (codes "  }\n"
                                                        ++ (codes "  .top {\n"
                                                            ++ (codes
                                                            "    list-style: \"\\2b61\";\n"
                                                            ++ (codes "  }\n"
                                                            ++ (codes "  a {\n"
                                                            ++ (codes "    color: #222;\n"
                                                            ++ (codes "    padding: 0.5em;\n"
                                                            ++ (codes
                                                            "    text-decoration-style: dashed;\n"
                                                            ++ (codes "  }\n"
                                                            ++ (codes "  a:hover {\n"
                                                            ++ (codes "    background: #eee;\n"
                                                            ++ (codes "    border-radius: 0.25em;\n"
                                                            ++ (codes "  }\n"
                                                            ++ (codes "</style>\n"
                                                            ++ (codes
                                                            "<ul>\n")))))))))))))))))))))))))))

abbrev pub top : Bool → Bytes
top true = []
top false = codes "<li class=top><a href=\"..\">..</a>\n"

module _ (url_encode html_escape : Bytes → Bytes) where
  unfoldable pub entry_text : Bytes → Bytes → Bytes → Bytes
  entry_text class slash name =
      codes "<li"
      ++ (class
          ++ (codes "><a href=\"./"
              ++ (url_encode name
                  ++ (slash ++ (codes "\">" ++ (html_escape name ++ codes "</a>\n"))))))

  abbrev pub dir_text : Bytes → Bytes
  dir_text = entry_text (codes " class=dir") (codes "/")

  abbrev pub file_text : Bytes → Bytes
  file_text = entry_text [] []

  module _ {E : Type 0} where
    -- `entries.iter().filter_map(…)`, twice
    unfoldable pub dir_texts : Children E → List Bytes
    unfolding entry_text
    dir_texts nil = []
    dir_texts (cons (dir name _ _ _) entries) = dir_text name ∷ dir_texts entries
    dir_texts (cons (file _ _) entries) = dir_texts entries

    unfoldable pub file_texts : Children E → List Bytes
    unfolding entry_text
    file_texts nil = []
    file_texts (cons (dir _ _ _ _) entries) = file_texts entries
    file_texts (cons (file name _) entries) = file_text name ∷ file_texts entries

    -- `dirs.chain(files)`
    abbrev pub entry_texts : Children E → List Bytes
    entry_texts entries = dir_texts entries ++ file_texts entries

    abbrev pub page_texts : Bool → Children E → List Bytes
    page_texts is_root entries = (index_preamble ++ top is_root) ∷ entry_texts entries

module _ (encode_hex : Bytes → Bytes) (url_encode html_escape : Bytes → Bytes) (W : Writer)
    {E : Type 0} where
  unfoldable pub serve_index : Bool → Children E → Bytes → W.State → Run (Listing encode_hex W)
  unfolding index_preamble dir_texts file_texts serve_texts
  serve_index is_root entries =
      serve_texts encode_hex W (page_texts url_encode html_escape is_root entries)
