-- ===== src/Mesh/Proto/Encrypted.antt =====
-- The encrypted frames, POS and LOOK.
use open_apex.Base.{
  ℕ, ◌+◌, ◌-◌, ◌^◌, ◌≤◌, ◌<◌, ◌≡◌, refl, arith, ap, sym, ◌∙◌, false, ltb, ltb-false, Bool-cases,
  Option-cases, inl, inr, length-take, length-drop, none, some, List, [], ◌∷◌, ◌++◌, append_assoc,
  length, length-append, take, drop, take-append, drop-append, take-drop-append, take_le,
}
use open_apex.Mesh.Crypto.{tag_len, Sealed, mesh_ccm_encrypt, mesh_ccm_decrypt}
use open_apex.Mesh.Crypto.Ccm.{
  mesh_ccm_decrypt-encrypt, mesh_ccm_decrypt-eq-some, length-ct, length-tag,
}
use open_apex.Mesh.Fields.{MeshLook, put_u16, put_u32, look_max_len, look_len, put_look}
use open_apex.Mesh.Fields.Laws.{
  IsLook, length-put_u32, get_u16-put_u16, get_u32-put_u32, look_len-eq, length-put_look,
  get_look-put_look,
}
use open_apex.Mesh.Proto.{
  MeshHeader, MeshPos, put_header, mesh_decode_header, aad_len, pos_plain_len, pos_frame_len,
  frame_nonce, put_pos, get_pos, mesh_encode_pos, PosFrame, mesh_decode_pos, mesh_encode_look,
  mesh_decode_look,
}
use open_apex.Mesh.Proto.Frames.{
  IsHeader, length-put_header, mesh_decode_header-put_header, fits_room,
}

-- The widths of the position's fields.
pub record IsPos (p : MeshPos) : Type 0 where
  pub lat_range : p.lat_e7 < 2 ^ 32
  pub lon_range : p.lon_e7 < 2 ^ 32
  pub speed_range : p.speed_kmh_x10 < 65536
  pub heading_range : p.heading_deg_x10 < 65536

get_pos-put_pos : (p : MeshPos) → IsPos p → get_pos (put_pos p) ≡ p
unfolding get_pos put_pos put_u32 put_u16
get_pos-put_pos p k =
    let acc = p.acc_m ∷ [] in
    let heading = put_u16 p.heading_deg_x10 ++ acc in
    let speed = put_u16 p.speed_kmh_x10 ++ heading in
    let lon = put_u32 p.lon_e7 ++ speed in
    λ i. record {
      lat_e7 = get_u32-put_u32 p.lat_e7 lon k.lat_range i;
      lon_e7 = get_u32-put_u32 p.lon_e7 speed k.lon_range i;
      speed_kmh_x10 = get_u16-put_u16 p.speed_kmh_x10 heading k.speed_range i;
      heading_deg_x10 = get_u16-put_u16 p.heading_deg_x10 acc k.heading_range i;
      acc_m = p.acc_m;
    }

length-put_pos : (p : MeshPos) → length (put_pos p) ≡ pos_plain_len
unfolding put_pos put_u32 put_u16
length-put_pos p = refl

-- Header and session: what the tag covers in clear.
abbrev aad_of : MeshHeader → ℕ → List ℕ
aad_of h session = put_header h ++ put_u32 session

length-aad_of : (h : MeshHeader) (session : ℕ) → IsHeader h → length (aad_of h session) ≡ aad_len
length-aad_of h session k = omega (
  arith,
  length-append (put_header h) (put_u32 session),
  length-put_header h k,
  length-put_u32 session,
)

frame_nonce-append :
    (aad rest : List ℕ) → length aad ≡ aad_len → frame_nonce (aad ++ rest) ≡ frame_nonce aad
unfolding frame_nonce
frame_nonce-append aad rest h =
    rw
      (
        take-drop-append 8 4 aad rest (omega arith),
        take-drop-append 3 14 aad rest (omega arith),
        take-drop-append 2 12 aad rest (omega arith),
      )
      refl

-- What a POS frame carries behind header and session.
abbrev pos_rest : ℕ → ℕ → Sealed → List ℕ
pos_rest age_ms ttl s = put_u16 age_ms ++ (ttl ∷ (s.ct ++ s.tag))

-- A POS frame of the sender's key, session, position, age and hop count: the encoder gives a frame
-- of the fixed length, and whoever holds the key reads header, position, age and hop count back.
pub mesh_decode_pos-encode :
    (h : MeshHeader) (key : List ℕ) (session : ℕ) (pos : MeshPos) (age_ms ttl room : ℕ)
    → IsHeader h
    → IsPos pos
    → age_ms < 65536
    → pos_frame_len ≤ room
    → (frame : List ℕ) × (mesh_encode_pos h key session pos age_ms ttl room ≡ some frame)
      × (length frame ≡ pos_frame_len)
      × (mesh_decode_header frame ≡ some h)
      × (mesh_decode_pos frame key ≡ some (record { pos = pos; age_ms = age_ms; ttl = ttl }))
unfolding mesh_encode_pos mesh_decode_pos put_u16
mesh_decode_pos-encode h key session pos age_ms ttl room k p a r =
    let aad = aad_of h session in
    let nonce = frame_nonce aad in
    let s = mesh_ccm_encrypt key nonce aad (put_pos pos) in
    let rest = pos_rest age_ms ttl s in
    let ct_size = length-ct key nonce aad (put_pos pos) ∙ length-put_pos pos in
    let tag_size = length-tag key nonce aad (put_pos pos) in
    let aad_size = length-aad_of h session k in
    let size : length (aad ++ rest) ≡ pos_frame_len =
      omega (arith, length-append aad rest, length-append s.ct s.tag) in
    let opens : mesh_ccm_decrypt key nonce aad s.ct s.tag ≡ some (put_pos pos) =
      mesh_ccm_decrypt-encrypt key nonce aad (put_pos pos) in
    (
      aad ++ rest,
      fits_room room pos_frame_len (aad ++ rest) r,
      size,
      ap mesh_decode_header (append_assoc (put_header h) (put_u32 session) rest)
          ∙ mesh_decode_header-put_header h (put_u32 session ++ rest) k,
      rw
          (
            ltb-false (length (aad ++ rest)) pos_frame_len (omega arith),
            frame_nonce-append aad rest aad_size,
            take-append aad_len aad rest aad_size,
            drop-append aad_len aad rest aad_size,
            take-append pos_plain_len s.ct s.tag ct_size,
            drop-append pos_plain_len s.ct s.tag ct_size,
            take_le tag_len s.tag (omega arith),
            opens,
          )
          (rw
            (
              drop-append aad_len aad rest aad_size,
              get_pos-put_pos pos p,
              get_u16-put_u16 age_ms (ttl ∷ (s.ct ++ s.tag)) a,
            )
            refl),
    )

look_len_bounds : (look : MeshLook) → IsLook look → (6 ≤ look_len look) × (look_len look ≤ 18)
look_len_bounds look k =
    (omega (arith, look_len-eq look k), omega (arith, look_len-eq look k, k.is_name.short))

-- A LOOK frame under the sender's key: the encoder gives a frame, and whoever holds the key reads
-- header and look back.
pub mesh_decode_look-encode :
    (h : MeshHeader) (key : List ℕ) (session : ℕ) (look : MeshLook) (room : ℕ)
    → IsHeader h
    → IsLook look
    → aad_len + look_len look + tag_len ≤ room
    → (frame : List ℕ) × (mesh_encode_look h key session look room ≡ some frame)
      × (mesh_decode_header frame ≡ some h)
      × (mesh_decode_look frame key ≡ some look)
unfolding mesh_encode_look mesh_decode_look
mesh_decode_look-encode h key session look room k l r =
    let aad = aad_of h session in
    let nonce = frame_nonce aad in
    let s = mesh_ccm_encrypt key nonce aad (put_look look) in
    let rest = s.ct ++ s.tag in
    let ct_size = length-ct key nonce aad (put_look look) ∙ length-put_look look l in
    let tag_size = length-tag key nonce aad (put_look look) in
    let aad_size = length-aad_of h session k in
    let bounds = look_len_bounds look l in
    let size : length (aad ++ rest) ≡ aad_len + look_len look + tag_len =
      omega (arith, length-append aad rest, length-append s.ct s.tag) in
    let plain : length (aad ++ rest) - aad_len - tag_len ≡ look_len look = omega arith in
    let opens : mesh_ccm_decrypt key nonce aad s.ct s.tag ≡ some (put_look look) =
      mesh_ccm_decrypt-encrypt key nonce aad (put_look look) in
    (
      aad ++ rest,
      fits_room room (aad_len + look_len look + tag_len) (aad ++ rest) r,
      ap mesh_decode_header (append_assoc (put_header h) (put_u32 session) rest)
          ∙ mesh_decode_header-put_header h (put_u32 session ++ rest) k,
      rw
          (
            ltb-false (length (aad ++ rest)) (aad_len + 6 + tag_len) (omega arith),
            plain,
            ltb-false look_max_len (look_len look) (omega arith),
            frame_nonce-append aad rest aad_size,
            take-append aad_len aad rest aad_size,
            drop-append aad_len aad rest aad_size,
            take-append (look_len look) s.ct s.tag ct_size,
            drop-append (look_len look) s.ct s.tag ct_size,
            take_le tag_len s.tag (omega arith),
            opens,
          )
          (get_look-put_look look l),
    )

none≢some : {f : PosFrame} → none ≡ some f → ⊥
none≢some e = cc

pos_injective : {f g : PosFrame} → some f ≡ some g → f.pos ≡ g.pos
pos_injective e = cc

tag_room :
    (buf : List ℕ)
    → ltb (length buf) pos_frame_len ≡ false
    → tag_len ≤ length (drop pos_plain_len (drop 3 (drop aad_len buf)))
tag_room buf h = ground (
  arith,
  length-drop aad_len buf,
  length-drop 3 (drop aad_len buf),
  length-drop pos_plain_len (drop 3 (drop aad_len buf)),
)

-- A POS frame that is accepted was sealed with the key: its ciphertext and tag are those that the
-- key gives for some plaintext under the frame's own header and session, and the position that
-- comes out is that plaintext's.
pub mesh_decode_pos-eq-some :
    (buf key : List ℕ) (f : PosFrame)
    → mesh_decode_pos buf key ≡ some f
    → (pt : List ℕ) × (f.pos ≡ get_pos pt)
      × (mesh_ccm_encrypt key (frame_nonce buf) (take aad_len buf) pt ≡ record {
        ct = take pos_plain_len (drop 3 (drop aad_len buf));
        tag = take tag_len (drop pos_plain_len (drop 3 (drop aad_len buf)));
      })
unfolding mesh_decode_pos
mesh_decode_pos-eq-some buf key f h =
    let ct = drop 3 (drop aad_len buf) in
    let nonce = frame_nonce buf in
    let tag = take tag_len (drop pos_plain_len ct) in
    elim (Bool-cases (ltb (length buf) pos_frame_len)) [
      | inl short ↦ absurd (none≢some (rw short at h))
      | inr long ↦
          elim (Option-cases
            (mesh_ccm_decrypt key nonce (take aad_len buf) (take pos_plain_len ct) tag)) [
              | inl bad ↦ absurd (none≢some (rw (long, bad) at h))
              | inr (pt, good) ↦ (
                pt,
                sym (pos_injective (rw (long, good) at h)),
                mesh_ccm_decrypt-eq-some key nonce (take aad_len buf) (take pos_plain_len ct) tag pt
                    (length-take tag_len (drop pos_plain_len ct) (tag_room buf long)) good,
              )
            ]
    ]
