-- ===== src/HostAdpt/Words.antt =====
-- npu_hostadpt.c: the words of a descriptor, as the host reads them.
use clanker_npu.Prelude.{ℕ, ◌+◌, ◌*◌, ◌/◌, ◌%◌, ◌^◌, ◌<◌, ◌≡◌, refl, arith, bit, bit_or}
use clanker_npu.Prelude.Bits.{bit_or-shifted}
use clanker_npu.Fwd.{Submit}
use clanker_npu.HostAdpt.{Desc, word0, word1, dma_len, out_len}

word0-sum :
    (orig len last : ℕ)
    → word0 orig len last
      ≡ last % 2 * 2 ^ 29 + (len % 2 ^ 14 * 2 ^ 15 + (orig % 2 ^ 14 * 2 ^ 1 + 1))
unfolding word0
word0-sum orig len last =
    let a : bit_or 1 (orig % 2 ^ 14 * 2 ^ 1) ≡ orig % 2 ^ 14 * 2 ^ 1 + 1 =
      bit_or-shifted 1 (orig % 2 ^ 14) 1 (omega arith) in
    let b = bit_or-shifted 15 (len % 2 ^ 14) (orig % 2 ^ 14 * 2 ^ 1 + 1) (omega arith) in
    let c =
      bit_or-shifted 29 (last % 2) (len % 2 ^ 14 * 2 ^ 15 + (orig % 2 ^ 14 * 2 ^ 1 + 1))
        (omega arith) in
    rw (a, b) c

word1-sum :
    (wcid amsdu kind : ℕ)
    → word1 wcid amsdu kind ≡ kind % 2 ^ 6 * 2 ^ 26 + (amsdu % 2 ^ 5 * 2 ^ 16 + wcid % 2 ^ 16)
unfolding word1
word1-sum wcid amsdu kind =
    let a = bit_or-shifted 16 (amsdu % 2 ^ 5) (wcid % 2 ^ 16) (omega arith) in
    rw a (bit_or-shifted 26 (kind % 2 ^ 6) (amsdu % 2 ^ 5 * 2 ^ 16 + wcid % 2 ^ 16) (omega arith))

-- The frame in a descriptor, with the host's buffer in place of the frame's own.
abbrev pub host_frame : Desc → Submit
host_frame d = record {
  buf = d.dst;
  len = d.w0 / 2 ^ 15 % 2 ^ 14;
  wcid = d.w1 % 2 ^ 16;
  amsdu = d.w1 / 2 ^ 16 % 2 ^ 5;
  kind = d.w1 / 2 ^ 26 % 2 ^ 6;
  orig = d.w0 / 2 ^ 1 % 2 ^ 14;
  is_last = d.w0 / 2 ^ 29 % 2;
  info = d.w2;
}

-- The descriptor of a frame.
abbrev pub desc_of : Submit → ℕ → Desc
desc_of f dst = record {
  w0 = word0 f.orig f.len f.is_last;
  w1 = word1 f.wcid f.amsdu f.kind;
  w2 = f.info;
  dst = dst;
}

pub word0-odd : (orig len last : ℕ) → bit (word0 orig len last) 0 ≡ 1
word0-odd orig len last = omega (arith, word0-sum orig len last)

-- The values that fit the fields of the words.
pub record Fits (f : Submit) : Type 0 where
  pub len : f.len < 2 ^ 14
  pub wcid : f.wcid < 2 ^ 16
  pub amsdu : f.amsdu < 2 ^ 5
  pub kind : f.kind < 2 ^ 6
  pub orig : f.orig < 2 ^ 14
  pub is_last : f.is_last < 2

-- A frame whose values fit the fields of the words is read back from its descriptor, with the host's
-- buffer in place of its own.
pub host_frame-desc_of :
    (f : Submit) (dst : ℕ) → Fits f → host_frame (desc_of f dst) ≡ record f { buf = dst }
host_frame-desc_of f dst h =
    let a = word0-sum f.orig f.len f.is_last in
    let b = word1-sum f.wcid f.amsdu f.kind in
    let len : word0 f.orig f.len f.is_last / 2 ^ 15 % 2 ^ 14 ≡ f.len =
      omega (arith, a, h.len, h.orig, h.is_last) in
    let orig : word0 f.orig f.len f.is_last / 2 ^ 1 % 2 ^ 14 ≡ f.orig =
      omega (arith, a, h.len, h.orig, h.is_last) in
    let is_last : word0 f.orig f.len f.is_last / 2 ^ 29 % 2 ≡ f.is_last =
      omega (arith, a, h.len, h.orig, h.is_last) in
    let wcid : word1 f.wcid f.amsdu f.kind % 2 ^ 16 ≡ f.wcid =
      omega (arith, b, h.wcid, h.amsdu, h.kind) in
    let amsdu : word1 f.wcid f.amsdu f.kind / 2 ^ 16 % 2 ^ 5 ≡ f.amsdu =
      omega (arith, b, h.wcid, h.amsdu, h.kind) in
    let kind : word1 f.wcid f.amsdu f.kind / 2 ^ 26 % 2 ^ 6 ≡ f.kind =
      omega (arith, b, h.wcid, h.amsdu, h.kind) in
    rw (len, orig, is_last, wcid, amsdu, kind) refl

-- The two spellings of the length of a copy.
pub out_len-dma_len : (limit : ℕ) (f : Submit) → out_len limit f ≡ dma_len limit f
unfolding out_len dma_len
out_len-dma_len limit f = ground arith
