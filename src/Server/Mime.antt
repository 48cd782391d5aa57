-- ===== src/Server/Mime.antt =====
-- Server_HTTP/src/server_http.cpp and include/server_http.h: Audio_mime_type.
use pet_project.Base.{
  ◌≡◌, ◌≢◌, refl, Option, none, some, List, [], ◌∷◌, ◌++◌, arith, ◌==◌, All, if◌then◌else◌,
}
use pet_project.Base.Text.{Text, lit, text_eq}

abbrev pub octet_stream : Text
octet_stream = lit "application/octet-stream"

abbrev pub types : List (Text × Text)
types =
    (lit "aac", lit "audio/aac")
    ∷ (lit "mid", lit "audio/midi audio/x-midi")
    ∷ (lit "midi", lit "audio/midi audio/x-midi")
    ∷ (lit "mp3", lit "audio/mpeg")
    ∷ (lit "oga", lit "audio/ogg")
    ∷ (lit "wav", lit "audio/wav")
    ∷ (lit "weba", lit "audio/webm")
    ∷ (lit "3gp", lit "audio/3gpp")
    ∷ (lit "3g2", lit "audio/3gpp2")
    ∷ []

unfoldable pub lookup : List (Text × Text) → Text → Option Text
lookup [] k = none
lookup ((j, v) ∷ m) k = if text_eq j k then some v else lookup m k

-- target.substr(target.find_last_of('.') + 1), or none if there is no dot
unfoldable pub after_last_dot : Text → Option Text
after_last_dot [] = none
after_last_dot (c ∷ s) = elim (after_last_dot s) [
  | some e ↦ some e
  | none ↦ if c == b'.' then some s else none
]

unfoldable pub type_of : Option Text → Text
type_of none = octet_stream
type_of (some t) = t

unfoldable pub mime_type : Text → Text
unfolding after_last_dot type_of
mime_type target = elim (after_last_dot target) [
  | none ↦ octet_stream
  | some e ↦ type_of (lookup types e)
]

-- No byte of the text is a dot.
abbrev pub NoDot : Text → Type 0
NoDot = All (λ c. c ≢ b'.')

no_dot : (e : Text) → NoDot e → after_last_dot e ≡ none
unfolding after_last_dot
no_dot [] h = refl
no_dot (c ∷ e) h = ground (arith, no_dot e h.1, h.0)

last_dot : (p e : Text) → NoDot e → after_last_dot (p ++ b'.' ∷ e) ≡ some e
unfolding after_last_dot
last_dot [] e h = ground (arith, no_dot e h)
last_dot (c ∷ p) e h = ground (arith, last_dot p e h)

-- The type is decided by what stands behind the last dot of the target, whatever stands before it;
-- a target with no dot, and one whose extension is not in the table, is an octet stream.
pub mime_type-extension :
    (p e : Text)
    → NoDot e
    → (mime_type (p ++ b'.' ∷ e) ≡ type_of (lookup types e)) × (mime_type e ≡ octet_stream)
unfolding mime_type
mime_type-extension p e h = (ground (arith, last_dot p e h), ground (arith, no_dot e h))
