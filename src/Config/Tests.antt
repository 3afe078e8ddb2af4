-- ===== src/Config/Tests.antt =====
-- The settings, saved and read, in a simple format.
use pikonode.Prelude.{
  ◌≡◌, refl, Bool, true, false, none, [], ◌∷◌, ◌++◌, length, take, drop, take-append_left,
  drop-append_left,
}
use pikonode.Prelude.Bits.{Bytes, ascii}
use pikonode.Config.{Cfg, Places, Json, Disk}
use pikonode.Config.Saved.{IsFaithful}

-- A text behind its length.
put_text : Bytes → Bytes → Bytes
put_text s rest = length s ∷ (s ++ rest)

get_text : Bytes → Bytes × Bytes
get_text [] = ([], [])
get_text (n ∷ s) = (take n s, drop n s)

get_text-put_text : (s rest : Bytes) → get_text (put_text s rest) ≡ (s, rest)
unfolding get_text put_text
get_text-put_text s rest = rw (take-append_left s rest, drop-append_left s rest) refl

pub encode : Cfg → Bytes
encode cfg =
    cfg.device_id
    ∷ cfg.listen_port
    ∷ put_text cfg.rendezvous (
        put_text cfg.token
          (put_text cfg.private_key (put_text cfg.public_key (put_text cfg.interface_name []))))

pub decode : Cfg → Bytes → Cfg × Bool
decode old (id ∷ port ∷ s) =
    let (rendezvous, s1) = get_text s in
    let (token, s2) = get_text s1 in
    let (private, s3) = get_text s2 in
    let (public, s4) = get_text s3 in
    let (name, s5) = get_text s4 in
    (
      record {
        rendezvous = rendezvous;
        token = token;
        device_id = id;
        private_key = private;
        public_key = public;
        interface_name = name;
        listen_port = port;
      },
      true,
    )
decode old _ = (old, false)

abbrev pub format : Json
format = record { encode = encode; decode = decode }

pub format-IsFaithful : IsFaithful format
unfolding encode decode
format-IsFaithful old cfg =
    let s4 = put_text cfg.interface_name [] in
    let s3 = put_text cfg.public_key s4 in
    let s2 = put_text cfg.private_key s3 in
    let s1 = put_text cfg.token s2 in
    rw
      (
        get_text-put_text cfg.rendezvous s1,
        get_text-put_text cfg.token s2,
        get_text-put_text cfg.private_key s3,
        get_text-put_text cfg.public_key s4,
        get_text-put_text cfg.interface_name [],
      )
      refl

abbrev pub working : Disk
working = record { makes_dir = true; creates = true; opens = true; writes = true; partial = [] }

abbrev pub places : Places
places = record {
  override = ascii "piko.json";
  user_config_dir = none;
  working_dir = none;
  join = λ names. [];
}
