-- ===== src/Ifmedia.antt =====
-- bsd_eth_drivers/libbsdport/ifmedia.c: the media of an interface.
use Prim.Native.Nat.{bit_and, bit_or}
use rtems_libbsdport.Prelude.{
  ℕ, ◌≡◌, ◌≢◌, Bool, Option, none, some, List, [], ◌∷◌, ◌++◌, ◌==◌, if◌then◌else◌, arith,
}

-- The numbers of the system's headers.
pub record Media : Type 0 where
  pub siocgifmedia : ℕ
  pub avalid : ℕ
  pub active : ℕ
  pub link_ok : ℕ
  pub aneg_dis : ℕ
  pub auto : ℕ
  pub subtype : ℕ → ℕ

pub record Entry : Type 0 where
  pub ifm_media : ℕ
  pub ifm_data : ℕ
  pub ifm_aux : ℕ

-- `struct ifmedia`. The driver's callbacks are none for null: `ifm_change` gives an errno for the
-- media word that it finds, and `ifm_status` the status and the active media.
pub record Ifmedia : Type 0 where
  pub ifm_mask : ℕ
  pub ifm_media : ℕ
  pub ifm_cur : ℕ
  pub ifm_list : List Entry
  pub ifm_change : Option (ℕ → ℕ)
  pub ifm_status : Option (ℕ × ℕ)

-- ifmedia_init
unfoldable pub ifmedia_init : (dontcare_mask : ℕ) → Option (ℕ → ℕ) → Option (ℕ × ℕ) → Ifmedia
ifmedia_init dontcare_mask change status = record {
  ifm_mask = dontcare_mask;
  ifm_media = 0;
  ifm_cur = 0;
  ifm_list = [];
  ifm_change = change;
  ifm_status = status;
}

-- ifmedia_add: the entry goes to the end of the list, if malloc serves it.
unfoldable pub ifmedia_add : (has_memory : Bool) → Ifmedia → Entry → Ifmedia
ifmedia_add has_memory m e =
    if has_memory then record m { ifm_list = m.ifm_list ++ (e ∷ []) } else m

-- ifmedia_set
unfoldable pub ifmedia_set : Ifmedia → (mword : ℕ) → Ifmedia
ifmedia_set m mword = record m { ifm_media = mword }

-- What ifmedia_ioctl comes to: ENOTSUP, EINVAL, or the errno, `ifr_media` and the media after it.
pub data Reply : Type 0 where
  enotsup einval : Reply
  replied : (errno ifr_media : ℕ) → Ifmedia → Reply

-- The translation of the active media for SIOCGIFMEDIA.
unfoldable pub translate : Media → Ifmedia → (status current : ℕ) → ℕ
translate c m status current =
    let linked = if bit_and c.active status == 0 then current else bit_or current c.link_ok in
    if c.subtype m.ifm_media == c.auto then linked else bit_or linked c.aneg_dis

-- ifmedia_ioctl: every command but SIOCGIFMEDIA sets the media.
unfoldable pub ifmedia_ioctl : Media → Ifmedia → (ifr_media cmd : ℕ) → Reply
unfolding translate
ifmedia_ioctl c m ifr_media cmd =
    if cmd == c.siocgifmedia
    then elim m.ifm_status [
      | none ↦ enotsup
      | some (status, current) ↦
          if bit_and c.avalid status == 0
          then einval
          else replied 0 (translate c m status current) m
    ]
    else elim m.ifm_change [
      | none ↦ enotsup
      | some change ↦ replied (change ifr_media) ifr_media (record m { ifm_media = ifr_media })
    ]

-- Once the media has been set through ifmedia_ioctl, SIOCGIFMEDIA reports the driver's active media,
-- the link if it is up, and autonegotiation as disabled if and only if the media set is not the
-- automatic one.
pub ifmedia_ioctl-ifmedia_ioctl :
    (c : Media) (m m' : Ifmedia) (media media' cmd errno x status current : ℕ)
    → cmd ≢ c.siocgifmedia
    → ifmedia_ioctl c m media cmd ≡ replied errno media' m'
    → m.ifm_status ≡ some (status, current)
    → bit_and c.avalid status ≢ 0
    → ifmedia_ioctl c m' x c.siocgifmedia
      ≡ replied 0
          (if c.subtype media == c.auto
            then (if bit_and c.active status == 0 then current else bit_or current c.link_ok)
            else bit_or
                (if bit_and c.active status == 0 then current else bit_or current c.link_ok)
                c.aneg_dis)
          m'
unfolding ifmedia_ioctl
ifmedia_ioctl-ifmedia_ioctl c m m' media media' cmd errno x status current n e s v = ground arith
