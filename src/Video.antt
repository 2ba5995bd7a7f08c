-- ===== src/Video.antt =====
-- The video part of the program; so far the Annex-B validator of video/annexb.py.
pub mod AnnexB
