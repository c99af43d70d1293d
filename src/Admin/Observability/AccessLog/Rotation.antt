-- ===== src/Admin/Observability/AccessLog/Rotation.antt =====
-- Which file a line of the log of accesses goes to.
use ziyad_messenger.Base.{
  String, true, List, [], ◌∷◌, ◌++◌, Option, none, some, ◌==◌, ◌≡◌, ◌≢◌, refl, arith, eq_iff,
  if◌then◌else◌,
}
use ziyad_messenger.Base.Assoc.{insert, get_or, lookup-insert}
use ziyad_messenger.Base.Text.{trim_space}
use ziyad_messenger.Admin.Observability.AccessLog.{
  Files, Outside, log_name, write_to, opened, write_access_log_to_file,
}

-- The file of a day.
abbrev pub path_on : Outside → String → String
path_on out date = out.join (trim_space out.dir) (log_name date)

-- An open file is the one of the sink's day.
abbrev pub IsOfDay : Outside → Files → Type 0
IsOfDay out f = (path : String) → f.sink.file ≡ some path → path ≡ path_on out f.sink.date

pub write-IsOfDay :
    (out : Outside) (line : String) (f : Files)
    → IsOfDay out f
    → IsOfDay out (write_access_log_to_file out line f)
unfolding write_access_log_to_file
write-IsOfDay out line f h path e = ground (arith, h path)

abbrev pub lines : String → Files → List String
lines path f = get_or path [] f.disk

appended :
    (path other line : String) (disk : List (String × List String))
    → get_or other [] (insert path (get_or path [] disk ++ line ∷ []) disk)
      ≡ (if path == other then get_or other [] disk ++ line ∷ [] else get_or other [] disk)
appended path other line disk =
    ground
      (arith, lookup-insert path other (get_or path [] disk ++ line ∷ []) disk, eq_iff path other)

created :
    (path other : String) (disk : List (String × List String))
    → get_or other [] (insert path (get_or path [] disk) disk) ≡ get_or other [] disk
created path other disk =
    ground (arith, lookup-insert path other (get_or path [] disk) disk, eq_iff path other)

-- Opening fills the sink with today's file.
reopened :
    (out : Outside) (line other : String) (f : Files)
    → out.mkdir ≡ true
    → out.open_file ≡ true
    → out.write ≡ true
    → lines other (opened out line f)
      ≡ (if path_on out out.now_date == other then lines other f ++ line ∷ [] else lines other f)
reopened out line other f mkdir open_file write =
    let path = path_on out out.now_date in
    let made = insert path (get_or path [] f.disk) f.disk in
    ground (arith, appended path other line made, created path other f.disk)

same_day :
    (out : Outside) (line other path : String) (f : Files)
    → path ≡ path_on out out.now_date
    → out.write ≡ true
    → lines other (write_to out (some path) line f)
      ≡ (if path_on out out.now_date == other then lines other f ++ line ∷ [] else lines other f)
same_day out line other path f e write = ground (arith, appended path other line f.disk)

-- While the calls on the file system succeed, a line is added at the end of the file of today and no other file
-- gets or loses a line, whatever file was open before, of whatever day.
pub write_access_log_to_file_lem :
    (out : Outside) (line other : String) (f : Files)
    → IsOfDay out f
    → trim_space out.dir ≢ ""
    → out.mkdir ≡ true
    → out.open_file ≡ true
    → out.write ≡ true
    → let f' = write_access_log_to_file out line f in
      lines other f'
      ≡ (if path_on out out.now_date == other then lines other f ++ line ∷ [] else lines other f)
unfolding write_access_log_to_file
write_access_log_to_file_lem out line other f h dir mkdir open_file write =
    from f.sink.file (h) refl
  where
    from :
        (file : Option String)
        (k : (path : String) → file ≡ some path → path ≡ path_on out f.sink.date)
        → f.sink.file ≡ file
        → lines other (write_access_log_to_file out line f) ≡ (
            if path_on out out.now_date == other then lines other f ++ line ∷ [] else lines other f)
    from none k e =
        ground
          (arith, reopened out line other f mkdir open_file write, eq_iff (trim_space out.dir) "")
    from (some path) k e = ground (
      arith,
      k path refl,
      reopened out line other f mkdir open_file write,
      same_day out line other path f,
      eq_iff (trim_space out.dir) "",
      eq_iff f.sink.date out.now_date,
    )
