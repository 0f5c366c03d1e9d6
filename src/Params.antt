-- ===== src/Params.antt =====
-- Request parameters (pkg/util/muxutil.go, pkg/util/portUtil.go) over the conversions of Go's strconv.
pub mod Numbers
pub mod Mux
pub mod Port
pub mod Regexp
