-- ===== src/Server/Filer/Stored.antt =====
-- The Filer as a store: what it was sent last under a name is what it answers under that name.
use text.Mathlib.TextLemmas.{nil-append, cons-append, append_cancel_left, append_cancel_right}
use Prim.Native.Char.{Char, code}
use kle_ng_api.Prelude.{
  ◌≡◌, ◌≢◌, refl, sym, ap, ◌∙◌, false, String, Option, none, some, List, [], ◌∷◌, ◌++◌, All,
  All-map, ◌⊎◌, inl, inr, Option-cases, Bool-cases, str_eq, eq_iff, arith, if◌then◌else◌,
}
use kle_ng_api.Go.Strings.{◌<>◌}
use kle_ng_api.Common.{RenderFile}
use kle_ng_api.Storage.{Request, filer_ttl, upload_request}
use kle_ng_api.Storage.Delivery.{contents, AllReadable, render_path, render_requests}
use kle_ng_api.Server.Filer.{object_url, render_object, archive_name, result_object}
use kle_ng_api.Server.Filer.Downloads.{stored_at, upload_url}

-- the content stored last with a URL
unfoldable pub content_at : String → List Request → Option String
content_at url [] = none
content_at url (q ∷ requests) =
    let later = content_at url requests in
    elim later [
      | some content ↦ some content
      | none ↦ if str_eq q.url url then some q.form.content else none
    ]

pub content_at-later :
    (url content : String) (q : Request) (requests : List Request)
    → content_at url requests ≡ some content
    → content_at url (q ∷ requests) ≡ some content
unfolding content_at
content_at-later url content q requests h = rw (h, content_at) refl

pub content_at-append :
    (url content : String) (before requests : List Request)
    → content_at url requests ≡ some content
    → content_at url (before ++ requests) ≡ some content
content_at-append url content [] requests h = h
content_at-append url content (q ∷ before) requests h =
    content_at-later url content q (before ++ requests)
      (content_at-append url content before requests h)

pub content_at-here :
    (url content : String) (q : Request) (requests : List Request)
    → q.url ≡ url
    → q.form.content ≡ content
    → (content_at url requests ≡ none) ⊎ (content_at url requests ≡ some content)
    → content_at url (q ∷ requests) ≡ some content
unfolding content_at
content_at-here url content q requests same kept (inl e) =
    rw (e, content_at, (eq_iff q.url url).1 same, kept) refl
content_at-here url content q requests same kept (inr e) = rw (e, content_at) refl

content_at-other :
    (url : String) (q : Request) (requests : List Request)
    → str_eq q.url url ≡ false
    → content_at url requests ≡ none
    → content_at url (q ∷ requests) ≡ none
unfolding content_at
content_at-other url q requests other e = rw (e, content_at, other) refl

-- the last character of a text, `c` if it is empty
last_of : Char → String → Char
last_of c String.[] = c
last_of c (String.◌∷◌ d s) = last_of d s

last_of-append : (c d : Char) (s t : String) → last_of c (s <> String.◌∷◌ d t) ≡ last_of d t
unfolding last_of
last_of-append c d String.[] t = ap (last_of c) (nil-append (String.◌∷◌ d t))
last_of-append c d (String.◌∷◌ e s) t =
    ap (last_of c) (cons-append e s (String.◌∷◌ d t)) ∙ last_of-append e d s t

module _ (filer_url task_id : String) where
  -- below the Filer's URL, in the directory of the task
  same_below :
      (a b : String)
      → stored_at filer_url (task_id <> "/" <> a) ≡ stored_at filer_url (task_id <> "/" <> b)
      → a ≡ b
  unfolding object_url
  same_below a b h = append_cancel_left "/" a b (
      append_cancel_left task_id ("/" <> a) ("/" <> b) (
        append_cancel_left "/" (task_id <> "/" <> a) (task_id <> "/" <> b)
          (append_cancel_left filer_url _ _ (append_cancel_right _ _ ("?ttl=" <> filer_ttl) h))))

  same_name :
      (a b : String)
      → stored_at filer_url (render_object task_id a)
        ≡ stored_at filer_url (render_object task_id b)
      → a ≡ b
  unfolding render_object
  same_name a b h = append_cancel_right a b ".svg" (same_below (a <> ".svg") (b <> ".svg") h)

  archive_is_no_render :
      (a : String)
      → stored_at filer_url (render_object task_id a) ≢ stored_at filer_url (result_object task_id)
  unfolding render_object result_object archive_name last_of
  archive_is_no_render a h =
      let e : a <> ".svg" ≡ task_id <> ".zip" = same_below (a <> ".svg") (task_id <> ".zip") h in
      let svg : code (last_of "a" (a <> ".svg")) ≡ b'g' =
        ap code (last_of-append "a" "." a "svg") in
      let zip : code (last_of "a" (task_id <> ".zip")) ≡ b'p' =
        ap code (last_of-append "a" "." task_id "zip") in
      absurd (omega (arith, sym svg ∙ ap (λ t. code (last_of "a" t)) e ∙ zip))

  module _ (read_file : String → Option String) (log_path : String) where
    abbrev url_of : RenderFile → String
    url_of render = stored_at filer_url (render_object task_id render.name)

    abbrev requests_of : List RenderFile → List Request
    requests_of renders = render_requests filer_url read_file task_id log_path renders

    abbrev request_of : RenderFile → Request
    request_of render =
        upload_request filer_url (task_id <> "/" <> render.name <> ".svg")
          (contents (read_file (render_path log_path render)))

    request_url : (render : RenderFile) → (request_of render).url ≡ url_of render
    unfolding render_object
    request_url render = upload_url filer_url (task_id <> "/" <> render.name <> ".svg") _

    -- two renders of one name have one file
    same_content :
        (r s : RenderFile) (content : String)
        → read_file (render_path log_path r) ≡ some content
        → (request_of s).url ≡ url_of r
        → (request_of s).form.content ≡ content
    unfolding contents upload_request
    same_content r s content found same =
        let name : s.name ≡ r.name = same_name s.name r.name (sym (request_url s) ∙ same) in
        rw (name, found) refl

    -- what is stored with the URL of a render is its file, if anything is
    only_its_file :
        (r : RenderFile) (content : String) (renders : List RenderFile)
        → read_file (render_path log_path r) ≡ some content
        → (content_at (url_of r) (requests_of renders) ≡ none)
          ⊎ (content_at (url_of r) (requests_of renders) ≡ some content)
    unfolding content_at render_requests
    only_its_file r content [] found = inl refl
    only_its_file r content (s ∷ renders) found =
        elim (Bool-cases (str_eq (request_of s).url (url_of r))) [
          | inl same ↦
              let equal = (eq_iff (request_of s).url (url_of r)).0 same in
              inr (
                content_at-here (url_of r) content (request_of s) (requests_of renders) equal
                  (same_content r s content found equal) (only_its_file r content renders found))
          | inr other ↦ elim (only_its_file r content renders found) [
            | inl e ↦ inl (content_at-other (url_of r) (request_of s) (requests_of renders) other e)
            | inr e ↦
                inr (content_at-later (url_of r) content (request_of s) (requests_of renders) e)
          ]
        ]

    -- the file of a render is there, and is stored last with its URL
    abbrev pub IsStored : List Request → RenderFile → Type 0
    IsStored requests render =
        (content : String) × (read_file (render_path log_path render) ≡ some content)
        × (content_at (url_of render) requests ≡ some content)

    pub renders-IsStored :
        (renders : List RenderFile)
        → AllReadable read_file log_path renders
        → All (IsStored (requests_of renders)) renders
    unfolding render_requests
    renders-IsStored [] h = tt
    renders-IsStored (r ∷ renders) h = elim (Option-cases (read_file (render_path log_path r))) [
      | inl e ↦ absurd (h.0 e)
      | inr (content, e) ↦ (
        (
          content,
          e,
          content_at-here (url_of r) content (request_of r) (requests_of renders) (request_url r)
              (same_content r r content e (request_url r)) (only_its_file r content renders e),
        ),
        All-map (IsStored (requests_of renders)) (IsStored (requests_of (r ∷ renders))) renders
            (λ s (c, found, at_url).
              (c, found, content_at-later (url_of s) c (request_of r) (requests_of renders) at_url))
            (renders-IsStored renders h.1),
      )
    ]

    pub no_archive :
        (renders : List RenderFile)
        → content_at (stored_at filer_url (result_object task_id)) (requests_of renders) ≡ none
    unfolding content_at render_requests
    no_archive [] = refl
    no_archive (r ∷ renders) =
        let archive = stored_at filer_url (result_object task_id) in
        elim (Bool-cases (str_eq (request_of r).url archive)) [
          | inl same ↦
              let equal : (request_of r).url ≡ archive =
                (eq_iff (request_of r).url archive).0 same in
              absurd (archive_is_no_render r.name (sym (request_url r) ∙ equal))
          | inr other ↦
              content_at-other archive (request_of r) (requests_of renders) other
                (no_archive renders)
        ]
