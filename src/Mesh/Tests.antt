-- ===== src/Mesh/Tests.antt =====
-- The ciphers, frames and records on concrete riders.
use open_apex.Base.{
  ℕ, ◌+◌, ◌≡◌, refl, arith, some, List, [], ◌∷◌, ◌++◌, length, take, drop, replicate,
}
use open_apex.Mesh.Crypto.{mesh_ccm_encrypt, mesh_ccm_decrypt, tag_len}
use open_apex.Mesh.Crypto.Ccm.{mesh_ccm_decrypt-encrypt, mesh_ccm_decrypt-eq-some, length-tag}
use open_apex.Mesh.Fields.{MeshLook, get_look, look_len}
use open_apex.Mesh.Fields.Laws.{IsName, IsLook}
use open_apex.Mesh.Proto.{
  look_part_len, MeshHeader, MeshPos, put_header, mesh_decode_header, mesh_encode_hello,
  mesh_decode_hello, mesh_encode_pos, mesh_decode_pos, mesh_encode_look, mesh_decode_look,
  frame_nonce, aad_len, pos_plain_len, pos_frame_len, get_pos,
}
use open_apex.Mesh.Proto.Frames.{IsHeader, mesh_decode_header-put_header, mesh_decode_hello-encode}
use open_apex.Mesh.Proto.Encrypted.{
  IsPos, mesh_decode_pos-encode, mesh_decode_look-encode, mesh_decode_pos-eq-some,
}
use open_apex.Mesh.Records.{
  MeshIdentity, MeshFriend, mesh_friend_encode, mesh_friend_decode, mesh_friend_record_len,
}
use open_apex.Mesh.Records.Laws.{mesh_friend_decode-encode}

abbrev ada_name : List ℕ
ada_name = b'A' ∷ b'd' ∷ b'a' ∷ []

ada_name-IsName : IsName ada_name
ada_name-IsName = record {
  short = omega arith;
  no_nul =
      ((omega arith, omega arith), ((omega arith, omega arith), ((omega arith, omega arith), tt)));
}

abbrev ada_look : MeshLook
ada_look = record { avatar = 4; accent_rgb = 0x11_22_33; name = ada_name }

ada_look-IsLook : IsLook ada_look
ada_look-IsLook = record {
  avatar_range = omega arith;
  accent_range = omega arith;
  is_name = ada_name-IsName;
}

abbrev ada_id : List ℕ
ada_id = 1 ∷ 2 ∷ 3 ∷ 4 ∷ 5 ∷ 6 ∷ 7 ∷ 8 ∷ []

abbrev ada_key : List ℕ
ada_key = replicate 16 0x5A

abbrev hdr : MeshHeader
hdr = record { type = 4; sender = ada_id; seq = 0x1234 }

hdr-IsHeader : IsHeader hdr
hdr-IsHeader = record { sender_size = refl; seq_range = omega arith }

abbrev here : MeshPos
here = record {
  lat_e7 = 481234567;
  lon_e7 = 115678901;
  speed_kmh_x10 = 312;
  heading_deg_x10 = 1799;
  acc_m = 4;
}

here-IsPos : IsPos here
here-IsPos = record {
  lat_range = omega arith;
  lon_range = omega arith;
  speed_range = omega arith;
  heading_range = omega arith;
}

mesh_ccm_decrypt-encrypt_example :
    let s = mesh_ccm_encrypt ada_key (replicate 13 9) ada_id ada_name in
    mesh_ccm_decrypt ada_key (replicate 13 9) ada_id s.ct s.tag ≡ some ada_name
mesh_ccm_decrypt-encrypt_example = mesh_ccm_decrypt-encrypt ada_key (replicate 13 9) ada_id ada_name

mesh_ccm_decrypt-eq-some_example :
    let s = mesh_ccm_encrypt ada_key (replicate 13 9) ada_id ada_name in
    mesh_ccm_encrypt ada_key (replicate 13 9) ada_id ada_name ≡ record { ct = s.ct; tag = s.tag }
mesh_ccm_decrypt-eq-some_example =
    mesh_ccm_decrypt-eq-some ada_key (replicate 13 9) ada_id
      (mesh_ccm_encrypt ada_key (replicate 13 9) ada_id ada_name).ct
      (mesh_ccm_encrypt ada_key (replicate 13 9) ada_id ada_name).tag ada_name
      (length-tag ada_key (replicate 13 9) ada_id ada_name) mesh_ccm_decrypt-encrypt_example

abbrev look_bytes : List ℕ
look_bytes = 4 ∷ 0x11 ∷ 0x22 ∷ 0x33 ∷ 3 ∷ b'A' ∷ b'd' ∷ b'a' ∷ 0 ∷ []

look_bytes_read : get_look look_bytes ≡ some ada_look
unfolding get_look
look_bytes_read = refl

mesh_decode_header-put_header_example : mesh_decode_header (put_header hdr ++ (7 ∷ [])) ≡ some hdr
mesh_decode_header-put_header_example = mesh_decode_header-put_header hdr (7 ∷ []) hdr-IsHeader

mesh_decode_hello-encode_example :
    (frame : List ℕ) × (mesh_encode_hello hdr (some ada_look) 0 250 ≡ some frame)
    × (length frame ≡ 14 + 2 + 9)
    × (mesh_decode_header frame ≡ some hdr)
    × (mesh_decode_hello frame ≡ some (record { look = some ada_look; caps = 0 }))
unfolding look_part_len look_len
mesh_decode_hello-encode_example =
    mesh_decode_hello-encode hdr (some ada_look) 0 250 hdr-IsHeader ada_look-IsLook (omega arith)

mesh_decode_pos-encode_example :
    (frame : List ℕ) × (mesh_encode_pos hdr ada_key 77 here 900 0 250 ≡ some frame)
    × (length frame ≡ pos_frame_len)
    × (mesh_decode_header frame ≡ some hdr)
    × (mesh_decode_pos frame ada_key ≡ some (record { pos = here; age_ms = 900; ttl = 0 }))
mesh_decode_pos-encode_example =
    mesh_decode_pos-encode hdr ada_key 77 here 900 0 250 hdr-IsHeader here-IsPos (omega arith)
      (omega arith)

mesh_decode_look-encode_example :
    (frame : List ℕ) × (mesh_encode_look hdr ada_key 77 ada_look 250 ≡ some frame)
    × (mesh_decode_header frame ≡ some hdr)
    × (mesh_decode_look frame ada_key ≡ some ada_look)
unfolding look_len
mesh_decode_look-encode_example =
    mesh_decode_look-encode hdr ada_key 77 ada_look 250 hdr-IsHeader ada_look-IsLook (omega arith)

sealed_pos :
    (frame : List ℕ) × (mesh_encode_pos hdr ada_key 77 here 900 0 250 ≡ some frame)
    × (length frame ≡ pos_frame_len)
    × (mesh_decode_header frame ≡ some hdr)
    × (mesh_decode_pos frame ada_key ≡ some (record { pos = here; age_ms = 900; ttl = 0 }))
sealed_pos =
    mesh_decode_pos-encode hdr ada_key 77 here 900 0 250 hdr-IsHeader here-IsPos (omega arith)
      (omega arith)

mesh_decode_pos-eq-some_example :
    let buf = sealed_pos.0 in
    (pt : List ℕ) × (here ≡ get_pos pt)
    × (mesh_ccm_encrypt ada_key (frame_nonce buf) (take aad_len buf) pt ≡ record {
      ct = take pos_plain_len (drop 3 (drop aad_len buf));
      tag = take tag_len (drop pos_plain_len (drop 3 (drop aad_len buf)));
    })
mesh_decode_pos-eq-some_example =
    mesh_decode_pos-eq-some sealed_pos.0 ada_key (record { pos = here; age_ms = 900; ttl = 0 })
      sealed_pos.4

abbrev ada : MeshIdentity
ada = record { id = ada_id; key = ada_key; name = ada_name }

abbrev ada_friend : MeshFriend
ada_friend = record { id = ada_id; key = ada_key; look = ada_look }

mesh_friend_decode-encode_example :
    (length (mesh_friend_encode ada_friend) ≡ mesh_friend_record_len)
    × (mesh_friend_decode (mesh_friend_encode ada_friend) ≡ some ada_friend)
mesh_friend_decode-encode_example =
    mesh_friend_decode-encode ada_friend
      (record { id_size = refl; key_size = refl; is_look = ada_look-IsLook })
